-- ===== src/Acl/Library.antt =====
-- libacl, as book-src/acl/acl_update.c uses it: its calls with what is documented of them. Those that
-- fail only on a bad handle or without memory, where the program exits, are taken to succeed.
use linux_programming_interf.Common.{ℕ, ◌≤◌, ◌≡◌, ◌≢◌, Bool, true, List, length}
use linux_programming_interf.Acl.{Tag, mask, Perms, no_perms}
use linux_programming_interf.Acl.Entries.{AclEntry, granted, update_at, remove_at, insert_at, blank}

pub data Permission : Type 0 where
  acl_read : Permission
  acl_write : Permission
  acl_execute : Permission

abbrev pub with_permission : Permission → Perms → Perms
with_permission acl_read p = record p { read = true }
with_permission acl_write p = record p { write = true }
with_permission acl_execute p = record p { execute = true }

-- A handle of an entry is its place.
pub record AclLibrary : Type 1 where
  pub Acl : Type 0
  pub entries : Acl → List AclEntry
  pub create_entry : Acl → Acl × ℕ
  pub delete_entry : Acl → ℕ → Acl
  pub set_tag_type : Acl → ℕ → Tag → Acl
  pub set_qualifier : Acl → ℕ → ℕ → Acl
  pub get_permset : Acl → ℕ → Perms
  pub clear_perms : Perms → Perms
  pub add_perm : Perms → Permission → Perms
  pub set_permset : Acl → ℕ → Perms → Acl
  pub calc_mask : Acl → Acl
  pub valid : Acl → Bool
  pub set_file : Acl → Bool
  pub create_entry_place : (a : Acl) → (create_entry a).1 ≤ length (entries a)
  pub create_entry_entries :
      (a : Acl) → entries ((create_entry a).0) ≡ insert_at ((create_entry a).1) blank (entries a)
  pub delete_entry_entries :
      (a : Acl) (i : ℕ) → entries (delete_entry a i) ≡ remove_at i (entries a)
  pub set_tag_type_entries :
      (a : Acl) (i : ℕ) (t : Tag)
      → entries (set_tag_type a i t) ≡ update_at i (λ e. record e { tag = t }) (entries a)
  pub set_qualifier_entries :
      (a : Acl) (i : ℕ) (q : ℕ)
      → entries (set_qualifier a i q) ≡ update_at i (λ e. record e { qualifier = q }) (entries a)
  pub clear_perms_result : (p : Perms) → clear_perms p ≡ no_perms
  pub add_perm_result : (p : Perms) (x : Permission) → add_perm p x ≡ with_permission x p
  pub set_permset_entries :
      (a : Acl) (i : ℕ) (p : Perms)
      → entries (set_permset a i p) ≡ update_at i (λ e. record e { permset = p }) (entries a)
  -- Entries other than ACL_MASK keep their permissions.
  pub calc_mask_entries :
      (a : Acl) (t : Tag) (q : ℕ)
      → t ≢ mask
      → granted t q (entries (calc_mask a)) ≡ granted t q (entries a)
