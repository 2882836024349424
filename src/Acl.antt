-- ===== src/Acl.antt =====
-- book-src/acl/acl_update.c: the ACL specifications of its command line. Messages are left out, and
-- the lookups of names are parameters, with `none` for -1. `Acl.Update` applies the entries.
pub mod Applied
pub mod Entries
pub mod Granted
pub mod Library
pub mod Main
pub mod Printed
pub mod Refine
pub mod Update
mod Tests
use linux_programming_interf.Common.{
  ℕ, ◌+◌, Bool, true, false, ◌&&◌, ◌||◌, not, Option, none, some, List, [], ◌∷◌, leb, ◌==◌,
  if◌then◌else◌,
}
use linux_programming_interf.Common.Text.{CString, split_on}
use linux_programming_interf.Timers.{cut}

-- The tag types of libacl. `undefined_tag` is that of an entry that is created and not yet set.
pub data Tag : Type 0 where
  user_obj : Tag
  user : Tag
  group_obj : Tag
  group : Tag
  mask : Tag
  other : Tag
  undefined_tag : Tag

-- The mask of ACL_READ, ACL_WRITE and ACL_EXECUTE.
pub record Perms : Type 0 where
  pub read : Bool
  pub write : Bool
  pub execute : Bool

abbrev pub no_perms : Perms
no_perms = record { read = false; write = false; execute = false }

-- `perms` is set only where the specification has permissions.
pub record AccessControlEntry : Type 0 where
  pub tag : Tag
  pub qual : ℕ
  pub perms : Option Perms

abbrev pub same_text : CString → CString → Bool
same_text [] [] = true
same_text [] (d ∷ ds) = false
same_text (c ∷ cs) [] = false
same_text (c ∷ cs) (d ∷ ds) = c == d && same_text cs ds

abbrev pub user_text : CString
user_text = b'u' ∷ b's' ∷ b'e' ∷ b'r' ∷ []

abbrev pub group_text : CString
group_text = b'g' ∷ b'r' ∷ b'o' ∷ b'u' ∷ b'p' ∷ []

abbrev pub other_text : CString
other_text = b'o' ∷ b't' ∷ b'h' ∷ b'e' ∷ b'r' ∷ []

abbrev pub mask_text : CString
mask_text = b'm' ∷ b'a' ∷ b's' ∷ b'k' ∷ []

-- The tag type, depending on the tag's text and on whether there is a qualifier.
unfoldable pub tag_of : CString → Bool → Option Tag
tag_of text has_qual =
    if same_text text (b'u' ∷ []) || same_text text user_text
    then some (if has_qual then user else user_obj)
    else if same_text text (b'g' ∷ []) || same_text text group_text
    then some (if has_qual then group else group_obj)
    else if same_text text (b'o' ∷ []) || same_text text other_text
    then some other
    else if same_text text (b'm' ∷ []) || same_text text mask_text
    then some mask
    else none

-- The loop over the permissions string.
unfoldable pub add_perms : CString → Perms → Option Perms
add_perms [] perms = some perms
add_perms (p ∷ ps) perms =
    let readable = add_perms ps (record perms { read = true }) in
    let writable = add_perms ps (record perms { write = true }) in
    let executable = add_perms ps (record perms { execute = true }) in
    let same = add_perms ps perms in
    if p == b'r'
    then readable
    else if p == b'w'
    then writable
    else if p == b'x'
    then executable
    else if not (p == b'-')
    then none
    else same

abbrev pub is_set : CString → Bool
is_set [] = false
is_set (c ∷ cs) = true

-- `colon2 != NULL && *(colon2 + 1) != '\0'`
abbrev pub has_text : Option CString → Bool
has_text none = false
has_text (some s) = is_set s

-- The permissions, if a string is present.
abbrev pub perms_from : Option CString → Option (Option Perms)
perms_from none = some none
perms_from (some []) = some none
perms_from (some (p ∷ ps)) = elim (add_perms (p ∷ ps) no_perms) [
  | none ↦ none
  | some perms ↦ some (some perms)
]

abbrev pub max_entries : ℕ
max_entries = 10000

abbrev pub entry_then :
    Option AccessControlEntry → Option (List AccessControlEntry) → Option (List AccessControlEntry)
entry_then none rest = none
entry_then (some e) none = none
entry_then (some e) (some es) = some (e ∷ es)

module _ (user_id_from_name group_id_from_name : CString → Option ℕ) where
  -- The UID or GID of a qualifier.
  unfoldable pub qual_of : Tag → CString → Option ℕ
  qual_of user name = user_id_from_name name
  qual_of group name = group_id_from_name name
  qual_of user_obj name = some 0
  qual_of group_obj name = some 0
  qual_of mask name = some 0
  qual_of other name = some 0
  qual_of undefined_tag name = some 0

  abbrev pub with_perms : Tag → ℕ → Option (Option Perms) → Option AccessControlEntry
  with_perms tag qual none = none
  with_perms tag qual (some perms) = some (record { tag = tag; qual = qual; perms = perms })

  abbrev pub with_qual : Tag → Option CString → Option ℕ → Option AccessControlEntry
  with_qual tag perms_text none = none
  with_qual tag perms_text (some qual) = with_perms tag qual (perms_from perms_text)

  -- From the tag on.
  abbrev pub with_tag : CString → Option CString → Option Tag → Option AccessControlEntry
  with_tag name perms_text none = none
  with_tag name perms_text (some tag) = with_qual tag perms_text (qual_of tag name)

  -- Behind the first ':', the qualifier and what follows a second one.
  abbrev pub entry_of : CString → Bool → CString × Option CString → Option AccessControlEntry
  entry_of text perms_reqd (name, perms_text) =
      if has_text perms_text && not perms_reqd
      then none
      else if not (has_text perms_text) && perms_reqd
      then none
      else with_tag name perms_text (tag_of text (is_set name))

  abbrev pub entry_from : Bool → CString × Option CString → Option AccessControlEntry
  entry_from perms_reqd (text, none) = none
  entry_from perms_reqd (text, some rest) = entry_of text perms_reqd (cut b':' rest)

  -- `none` is FALSE.
  unfoldable pub parse_entry_spec : CString → Bool → Option AccessControlEntry
  unfolding cut tag_of add_perms qual_of
  parse_entry_spec entry_str perms_reqd = entry_from perms_reqd (cut b':' entry_str)

  -- The loop over the entries between commas, with `n` found before; `none` is -1.
  unfoldable pub parse_entries : ℕ → List CString → Bool → Option (List AccessControlEntry)
  unfolding parse_entry_spec
  parse_entries n [] perms_reqd = some []
  parse_entries n (s ∷ ss) perms_reqd =
      let rest = parse_entries (n + 1) ss perms_reqd in
      if leb max_entries n then none else entry_then (parse_entry_spec s perms_reqd) rest

  unfoldable pub parse_acl : CString → Bool → Option (List AccessControlEntry)
  unfolding split_on parse_entries
  parse_acl acl_str perms_reqd = parse_entries 0 (split_on b',' acl_str) perms_reqd
