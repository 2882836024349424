-- ===== src/Acl/Tests.antt =====
-- Runs of the definitions on small inputs.
use linux_programming_interf.Common.{
  ℕ, ◌+◌, ◌≡◌, ◌≢◌, refl, true, false, Option, none, some, List, [], ◌∷◌, ◌==◌, inl, inr, arith,
  if◌then◌else◌, map, Bool-cases,
}
use linux_programming_interf.Common.Text.{CString}
use linux_programming_interf.Acl.{
  Tag, user_obj, user, group_obj, group, mask, other, undefined_tag, Perms, no_perms,
  AccessControlEntry, parse_acl,
}
use linux_programming_interf.Acl.Printed.{
  Spec, named_user, owning_group, specs_text, entry_for, parse_acl-specs_text,
}
use linux_programming_interf.Acl.Entries.{
  AclEntry, same_key, tag_code, granted, update_at, remove_at, insert_at, blank,
}
use linux_programming_interf.Acl.Library.{AclLibrary, with_permission}
use linux_programming_interf.Acl.Update.{update_file}
use linux_programming_interf.Acl.Refine.{MeetsRequest, update_file-MeetsRequest}

abbrev id_from_name : CString → Option ℕ
id_from_name [] = none
id_from_name (c ∷ cs) = some (1000 + c)

abbrev read_only : Perms
read_only = record { read = true; write = false; execute = false }

abbrev ann : Spec
ann = record { subject = named_user (b'a' ∷ b'n' ∷ b'n' ∷ []) 1097; perms = read_only }

abbrev the_group : Spec
the_group = record { subject = owning_group; perms = no_perms }

-- "u:ann:r--,g::---"
parse_acl-specs_text_example :
    parse_acl id_from_name id_from_name (specs_text ann (the_group ∷ [])) true
    ≡ some (map entry_for (ann ∷ the_group ∷ []))
parse_acl-specs_text_example =
    parse_acl-specs_text id_from_name id_from_name ann (the_group ∷ [])
      (
        (
          (
            refl,
            (differ 97 58 refl, (differ 110 58 refl, (differ 110 58 refl, tt))),
            (differ 97 44 refl, (differ 110 44 refl, (differ 110 44 refl, tt))),
          ),
          refl,
        ),
        (tt, tt),
      )
      (omega arith)
  where
    differ : (c d : ℕ) → (c == d) ≡ false → c ≢ d
    differ c d h = (λ k. ground (arith, h, k))

-- An ACL as the list of its entries, whose mask is taken out and begun again.
abbrev without_mask : List AclEntry → List AclEntry
without_mask [] = []
without_mask (e ∷ es) =
    let rest = without_mask es in if tag_code e.tag == 16 then rest else e ∷ rest

abbrev begin_mask : List AclEntry → List AclEntry
begin_mask es = record { tag = mask; qualifier = 0; permset = read_only } ∷ without_mask es

mask-same_key :
    (t : Tag) (q : ℕ) (u : Tag) (r : ℕ)
    → (tag_code t == 16) ≡ false
    → (tag_code u == 16) ≡ true
    → same_key t q u r ≡ false
unfolding same_key
mask-same_key t q u r h k = ground (arith, h, k)

granted-without_mask :
    (t : Tag) (q : ℕ) (es : List AclEntry)
    → (tag_code t == 16) ≡ false
    → granted t q (without_mask es) ≡ granted t q es
unfolding granted
granted-without_mask t q [] h = refl
granted-without_mask t q (e ∷ es) h = elim (Bool-cases (tag_code e.tag == 16)) [
  | inl is_mask ↦
      let skips : same_key t q e.tag e.qualifier ≡ false =
        mask-same_key t q e.tag e.qualifier h is_mask in
      rw (is_mask, skips) (granted-without_mask t q es h)
  | inr stays ↦ rw (stays, granted-without_mask t q es h) refl
]

not_mask : (t : Tag) → t ≢ mask → (tag_code t == 16) ≡ false
not_mask user_obj h = refl
not_mask user h = refl
not_mask group_obj h = refl
not_mask group h = refl
not_mask other h = refl
not_mask undefined_tag h = refl
not_mask mask h = absurd (h refl)

granted-begin_mask :
    (es : List AclEntry) (t : Tag) (q : ℕ) → t ≢ mask → granted t q (begin_mask es) ≡ granted t q es
unfolding granted
granted-begin_mask es t q h =
    let differs = not_mask t h in
    let skips : same_key t q mask 0 ≡ false = mask-same_key t q mask 0 differs refl in
    rw skips (granted-without_mask t q es differs)

abbrev lists : AclLibrary
lists = record {
  Acl = List AclEntry;
  entries = (λ es. es);
  create_entry = (λ es. (insert_at 0 blank es, 0));
  delete_entry = (λ es i. remove_at i es);
  set_tag_type = (λ es i t. update_at i (λ e. record e { tag = t }) es);
  set_qualifier = (λ es i q. update_at i (λ e. record e { qualifier = q }) es);
  get_permset = (λ es i. no_perms);
  clear_perms = (λ p. no_perms);
  add_perm = (λ p x. with_permission x p);
  set_permset = (λ es i p. update_at i (λ e. record e { permset = p }) es);
  calc_mask = begin_mask;
  valid = (λ es. true);
  set_file = (λ es. true);
  create_entry_place = (λ es. omega arith);
  create_entry_entries = (λ es. refl);
  delete_entry_entries = (λ es i. refl);
  set_tag_type_entries = (λ es i t. refl);
  set_qualifier_entries = (λ es i q. refl);
  clear_perms_result = (λ p. refl);
  add_perm_result = (λ p x. refl);
  set_permset_entries = (λ es i p. refl);
  calc_mask_entries = granted-begin_mask;
}

abbrev old_entries : List AclEntry
old_entries =
    record { tag = user_obj; qualifier = 0; permset = read_only }
    ∷ record { tag = user; qualifier = 7; permset = no_perms }
    ∷ []

abbrev new_entries : List AccessControlEntry
new_entries =
    record { tag = user; qual = 7; perms = some read_only }
    ∷ record { tag = group; qual = 7; perms = some read_only }
    ∷ []

update_file-MeetsRequest_example :
    MeetsRequest lists false true new_entries old_entries user 7
      (update_file lists false true new_entries old_entries)
update_file-MeetsRequest_example =
    update_file-MeetsRequest lists false true new_entries old_entries user 7 (inr (λ h. cc))
