-- ===== src/Acl/Entries.antt =====
-- The entries of an access control list as book-src/acl/acl_update.c sees them through libacl.
use linux_programming_interf.Common.{
  ℕ, ◌-◌, ◌^◌, zero, suc, ◌≡◌, Bool, true, false, Option, none, some, List, [], ◌∷◌, ◌==◌,
  if◌then◌else◌, arith,
}
use linux_programming_interf.Acl.{
  Tag, user_obj, user, group_obj, group, mask, other, undefined_tag, Perms, no_perms,
}

-- The constants of sys/acl.h.
abbrev pub tag_code : Tag → ℕ
tag_code undefined_tag = 0
tag_code user_obj = 1
tag_code user = 2
tag_code group_obj = 4
tag_code group = 8
tag_code mask = 16
tag_code other = 32

pub record AclEntry : Type 0 where
  pub tag : Tag
  pub qualifier : ℕ
  pub permset : Perms

-- Whether two pairs of a tag type and an ID are for the same user or group: the ID matters for
-- ACL_USER and ACL_GROUP only.
unfoldable pub same_key : Tag → ℕ → Tag → ℕ → Bool
same_key tag qual entry_tag uid =
    if tag_code tag == tag_code entry_tag
    then (if tag_code tag == tag_code user
        then qual == uid
        else if tag_code tag == tag_code group
        then qual == uid
        else true)
    else false

-- The permissions of the entries for a key, in order.
unfoldable pub granted : Tag → ℕ → List AclEntry → List Perms
unfolding same_key
granted tag qual [] = []
granted tag qual (e ∷ es) =
    let rest = granted tag qual es in
    if same_key tag qual e.tag e.qualifier then e.permset ∷ rest else rest

abbrev pub update_at : ℕ → (AclEntry → AclEntry) → List AclEntry → List AclEntry
update_at i f [] = []
update_at zero f (e ∷ es) = f e ∷ es
update_at (suc i) f (e ∷ es) = e ∷ update_at i f es

abbrev pub remove_at : ℕ → List AclEntry → List AclEntry
remove_at i [] = []
remove_at zero (e ∷ es) = es
remove_at (suc i) (e ∷ es) = e ∷ remove_at i es

abbrev pub insert_at : ℕ → AclEntry → List AclEntry → List AclEntry
insert_at zero e es = e ∷ es
insert_at (suc i) e [] = e ∷ []
insert_at (suc i) e (x ∷ es) = x ∷ insert_at i e es

-- ACL_UNDEFINED_ID, which is -1
abbrev pub undefined_id : ℕ
undefined_id = 2 ^ 32 - 1

-- An entry that was created and not set.
abbrev pub blank : AclEntry
blank = record { tag = undefined_tag; qualifier = undefined_id; permset = no_perms }

abbrev pub later : Option ℕ → Option ℕ
later none = none
later (some i) = some (suc i)

-- `findEntry`: the place of the first entry for the key.
unfoldable pub find_entry : Tag → ℕ → List AclEntry → Option ℕ
unfolding same_key
find_entry tag qual [] = none
find_entry tag qual (e ∷ es) =
    let rest = later (find_entry tag qual es) in
    if same_key tag qual e.tag e.qualifier then some 0 else rest

-- What the two operations do to the permissions of a key.
abbrev pub renew : Perms → List Perms → List Perms
renew p [] = p ∷ []
renew p (q ∷ qs) = p ∷ qs

abbrev pub tail : List Perms → List Perms
tail [] = []
tail (q ∷ qs) = qs

pub same_key_refl : (t : Tag) (q : ℕ) → same_key t q t q ≡ true
unfolding same_key
same_key_refl t q = ground arith

pub same_key_trans :
    (t : Tag) (q : ℕ) (t' : Tag) (q' : ℕ) (u : Tag) (r : ℕ)
    → same_key t q u r ≡ true
    → same_key t' q' u r ≡ same_key t q t' q'
unfolding same_key
same_key_trans t q t' q' u r h = ground (arith, h)

pub same_key_left :
    (t : Tag) (q : ℕ) (t' : Tag) (q' : ℕ) (u : Tag) (r : ℕ)
    → same_key t q t' q' ≡ true
    → same_key t q u r ≡ same_key t' q' u r
unfolding same_key
same_key_left t q t' q' u r h = ground (arith, h)
