-- ===== src/Acl/Printed.antt =====
-- Specifications that follow the usage text, and what is read from them.
use linux_programming_interf.Common.{
  ℕ, ◌+◌, ◌≤◌, ◌≡◌, ◌≢◌, refl, ap, ◌∙◌, Bool, true, false, Option, some, List, [], ◌∷◌, ◌++◌, leb,
  ◌==◌, arith, length, map,
}
use linux_programming_interf.Common.Text.{
  CString, split_on, Lacks, Lacks-append, split_on-Lacks, split_on-append,
}
use linux_programming_interf.Timers.Printed.{cut-with_rest}
use linux_programming_interf.Acl.{
  Tag, user_obj, user, group_obj, group, mask, other, Perms, AccessControlEntry, tag_of, add_perms,
  qual_of, entry_of, entry_from, with_qual, with_tag, parse_entry_spec, parse_entries, parse_acl,
  max_entries, is_set,
}

-- An entry as a user means it: whom it is for, by name and ID, and the permissions.
pub data Subject : Type 0 where
  owner : Subject
  named_user : CString → ℕ → Subject
  owning_group : Subject
  named_group : CString → ℕ → Subject
  masked : Subject
  others : Subject

pub record Spec : Type 0 where
  pub subject : Subject
  pub perms : Perms

abbrev pub tag_letter : Subject → ℕ
tag_letter owner = b'u'
tag_letter (named_user name id) = b'u'
tag_letter owning_group = b'g'
tag_letter (named_group name id) = b'g'
tag_letter masked = b'm'
tag_letter others = b'o'

abbrev pub name_in : Subject → CString
name_in owner = []
name_in (named_user name id) = name
name_in owning_group = []
name_in (named_group name id) = name
name_in masked = []
name_in others = []

abbrev pub tag_in : Subject → Tag
tag_in owner = user_obj
tag_in (named_user name id) = user
tag_in owning_group = group_obj
tag_in (named_group name id) = group
tag_in masked = mask
tag_in others = other

abbrev flag : Bool → ℕ → ℕ
flag true c = c
flag false c = b'-'

abbrev pub perms_text : Perms → CString
perms_text p = flag p.read b'r' ∷ flag p.write b'w' ∷ flag p.execute b'x' ∷ []

-- "u:name:rwx"
abbrev pub spec_text : Spec → CString
spec_text s = tag_letter s.subject ∷ b':' ∷ (name_in s.subject ++ b':' ∷ perms_text s.perms)

abbrev pub specs_text : Spec → List Spec → CString
specs_text s [] = spec_text s
specs_text s (t ∷ ts) = spec_text s ++ b',' ∷ specs_text t ts

abbrev id_in : Subject → ℕ
id_in owner = 0
id_in (named_user name id) = id
id_in owning_group = 0
id_in (named_group name id) = id
id_in masked = 0
id_in others = 0

abbrev pub entry_for : Spec → AccessControlEntry
entry_for s = record { tag = tag_in s.subject; qual = id_in s.subject; perms = some s.perms }

-- A name can stand in a specification.
abbrev IsName : CString → Type 0
IsName name = (is_set name ≡ true) × Lacks b':' name × Lacks b',' name

char-Lacks : (c d : ℕ) → (d == c) ≡ false → Lacks c (d ∷ [])
char-Lacks c d differ = ((λ h. ground (arith, differ, h)), tt)

tag_letter-Lacks : (u : Subject) → Lacks b':' (tag_letter u ∷ []) × Lacks b',' (tag_letter u ∷ [])
tag_letter-Lacks owner = (char-Lacks b':' b'u' refl, char-Lacks b',' b'u' refl)
tag_letter-Lacks (named_user name id) = (char-Lacks b':' b'u' refl, char-Lacks b',' b'u' refl)
tag_letter-Lacks owning_group = (char-Lacks b':' b'g' refl, char-Lacks b',' b'g' refl)
tag_letter-Lacks (named_group name id) = (char-Lacks b':' b'g' refl, char-Lacks b',' b'g' refl)
tag_letter-Lacks masked = (char-Lacks b':' b'm' refl, char-Lacks b',' b'm' refl)
tag_letter-Lacks others = (char-Lacks b':' b'o' refl, char-Lacks b',' b'o' refl)

flag-Lacks : (b : Bool) (c : ℕ) → (c == b',') ≡ false → flag b c ≢ b','
flag-Lacks true c differ = (λ h. ground (arith, differ, h))
flag-Lacks false c differ = (λ h. ground (arith, h))

flags-Lacks : (r w x : Bool) → Lacks b',' (flag r b'r' ∷ flag w b'w' ∷ flag x b'x' ∷ [])
flags-Lacks r w x = (flag-Lacks r b'r' refl, (flag-Lacks w b'w' refl, (flag-Lacks x b'x' refl, tt)))

module _ (user_id_from_name group_id_from_name : CString → Option ℕ) where
  -- The names are known, with their IDs.
  abbrev pub IsSubject : Subject → Type 0
  IsSubject owner = Unit
  IsSubject (named_user name id) = IsName name × (user_id_from_name name ≡ some id)
  IsSubject owning_group = Unit
  IsSubject (named_group name id) = IsName name × (group_id_from_name name ≡ some id)
  IsSubject masked = Unit
  IsSubject others = Unit

  abbrev pub AreSpecs : List Spec → Type 0
  AreSpecs [] = Unit
  AreSpecs (s ∷ ss) = IsSubject s.subject × AreSpecs ss

  name_in-Lacks : (u : Subject) → IsSubject u → Lacks b':' (name_in u) × Lacks b',' (name_in u)
  name_in-Lacks owner h = (tt, tt)
  name_in-Lacks (named_user name id) ((h, colon, comma), k) = (colon, comma)
  name_in-Lacks owning_group h = (tt, tt)
  name_in-Lacks (named_group name id) ((h, colon, comma), k) = (colon, comma)
  name_in-Lacks masked h = (tt, tt)
  name_in-Lacks others h = (tt, tt)

  with_qual-flags :
      (t : Tag) (id : ℕ) (r w x : Bool)
      → with_qual user_id_from_name group_id_from_name t
          (some (flag r b'r' ∷ flag w b'w' ∷ flag x b'x' ∷ []))
          (some id)
        ≡ some (record {
          tag = t;
          qual = id;
          perms = some (record { read = r; write = w; execute = x });
        })
  unfolding add_perms
  with_qual-flags t id true true true = refl
  with_qual-flags t id true true false = refl
  with_qual-flags t id true false true = refl
  with_qual-flags t id true false false = refl
  with_qual-flags t id false true true = refl
  with_qual-flags t id false true false = refl
  with_qual-flags t id false false true = refl
  with_qual-flags t id false false false = refl

  with_qual-perms_text :
      (t : Tag) (p : Perms) (id : ℕ)
      → with_qual user_id_from_name group_id_from_name t (some (perms_text p)) (some id)
        ≡ some (record { tag = t; qual = id; perms = some p })
  with_qual-perms_text t p id = with_qual-flags t id p.read p.write p.execute

  -- The part from the tag on, with a name or without.
  with_tag-subject :
      (u : Subject) (p : Perms)
      → IsSubject u
      → with_tag user_id_from_name group_id_from_name
          (name_in u)
          (some (perms_text p))
          (tag_of (tag_letter u ∷ []) (is_set (name_in u)))
        ≡ some (entry_for (record { subject = u; perms = p }))
  unfolding tag_of qual_of
  with_tag-subject owner p h = with_qual-perms_text user_obj p 0
  with_tag-subject (named_user name id) p ((named, colon, comma), known) =
      rw (named, known) (with_qual-perms_text user p id)
  with_tag-subject owning_group p h = with_qual-perms_text group_obj p 0
  with_tag-subject (named_group name id) p ((named, colon, comma), known) =
      rw (named, known) (with_qual-perms_text group p id)
  with_tag-subject masked p h = with_qual-perms_text mask p 0
  with_tag-subject others p h = with_qual-perms_text other p 0

  parse_entry_spec-spec_text :
      (s : Spec)
      → IsSubject s.subject
      → parse_entry_spec user_id_from_name group_id_from_name (spec_text s) true
        ≡ some (entry_for s)
  unfolding parse_entry_spec
  parse_entry_spec-spec_text s h =
      let first =
        cut-with_rest b':' (tag_letter s.subject ∷ [])
          (some (name_in s.subject ++ b':' ∷ perms_text s.perms)) (tag_letter-Lacks s.subject).0 in
      let second =
        cut-with_rest b':' (name_in s.subject) (some (perms_text s.perms))
          (name_in-Lacks s.subject h).0 in
      ap (entry_from user_id_from_name group_id_from_name true) first
      ∙ ap (entry_of user_id_from_name group_id_from_name (tag_letter s.subject ∷ []) true) second
      ∙ with_tag-subject s.subject s.perms h

  spec_text-Lacks : (s : Spec) → IsSubject s.subject → Lacks b',' (spec_text s)
  spec_text-Lacks s h =
      let colon : b':' ≢ b',' = (λ h. ground (arith, h)) in
      let perms = flags-Lacks s.perms.read s.perms.write s.perms.execute in
      let behind =
        Lacks-append b',' (name_in s.subject) (b':' ∷ perms_text s.perms)
          (name_in-Lacks s.subject h).1 (colon, perms) in
      ((tag_letter-Lacks s.subject).1.0, (colon, behind))

  split_on-specs_text :
      (s : Spec) (ts : List Spec)
      → AreSpecs (s ∷ ts)
      → split_on b',' (specs_text s ts) ≡ map spec_text (s ∷ ts)
  split_on-specs_text s [] (h, hs) = split_on-Lacks b',' (spec_text s) (spec_text-Lacks s h)
  split_on-specs_text s (t ∷ ts) (h, hs) =
      split_on-append b',' (spec_text s) (specs_text t ts) (spec_text-Lacks s h)
      ∙ ap (λ ps. spec_text s ∷ ps) (split_on-specs_text t ts hs)

  parse_entries-map :
      (n : ℕ) (ss : List Spec)
      → AreSpecs ss
      → n + length ss ≤ max_entries
      → parse_entries user_id_from_name group_id_from_name n (map spec_text ss) true
        ≡ some (map entry_for ss)
  unfolding parse_entries
  parse_entries-map n [] hs fits = refl
  parse_entries-map n (s ∷ ss) (h, hs) fits =
      let rest = parse_entries-map (n + 1) ss hs (omega (arith, fits)) in
      let free : leb max_entries n ≡ false = ground (arith, fits) in
      rw (free, parse_entry_spec-spec_text s h, rest) refl

  -- parseACL: a list of at most MAX_ENTRIES specifications of the form "tag:[qualifier]:perms", with the
  -- one-letter tags and names that are looked up successfully, not empty and free of ':' and ',', is
  -- read with permissions required as its entries in their order: each with the tag type and the ID
  -- of its subject and its permissions.
  pub parse_acl-specs_text :
      (s : Spec) (ts : List Spec)
      → AreSpecs (s ∷ ts)
      → length (s ∷ ts) ≤ max_entries
      → parse_acl user_id_from_name group_id_from_name (specs_text s ts) true
        ≡ some (map entry_for (s ∷ ts))
  unfolding parse_acl
  parse_acl-specs_text s ts hs fits =
      rw (split_on-specs_text s ts hs) (parse_entries-map 0 (s ∷ ts) hs (omega (arith, fits)))
