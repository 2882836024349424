-- ===== src/Acl/Update.antt =====
-- How `main` of book-src/acl/acl_update.c applies the entries of its specification to the ACL of a file.
use linux_programming_interf.Common.{
  ℕ, Bool, ◌||◌, not, Option, none, some, List, [], ◌∷◌, ◌==◌, if◌then◌else◌,
}
use linux_programming_interf.Acl.{user, group, Perms, no_perms, AccessControlEntry}
use linux_programming_interf.Acl.Entries.{tag_code, find_entry}
use linux_programming_interf.Acl.Library.{AclLibrary, Permission, acl_read, acl_write, acl_execute}

-- How the loop over the entries ends: `acl_free` is called, or the program exits by `errExit` after
-- `acl_valid` or `acl_set_file`. The ACL is the one that the file has then.
pub data UpdateEnd (A : Type 0) : Type 0 where
  finished : A → UpdateEnd A
  refused : A → UpdateEnd A

-- The mask of an entry that has permissions, which all have under -m.
abbrev pub bits_of : Option Perms → Perms
bits_of none = no_perms
bits_of (some p) = p

module _ (lib : AclLibrary) where
  -- `if (perms & ...) acl_add_perm(permset, ...)`
  abbrev pub add_if : Bool → Permission → Perms → Perms
  add_if asked x permset = if asked then lib.add_perm permset x else permset

  -- The permission set that `setPerms` fills.
  unfoldable pub filled : Perms → Perms → Perms
  filled perms permset =
      add_if perms.execute acl_execute
        (add_if perms.write acl_write (add_if perms.read acl_read (lib.clear_perms permset)))

  unfoldable pub set_perms : lib.Acl → ℕ → Perms → lib.Acl
  unfolding filled
  set_perms acl entry perms = lib.set_permset acl entry (filled perms (lib.get_permset acl entry))

  -- The entry did not exist: create it with the required tag and qualifier.
  unfoldable pub create_for : AccessControlEntry → lib.Acl → lib.Acl × ℕ
  create_for ace acl =
      let made = lib.create_entry acl in
      let tagged = lib.set_tag_type (made.0) (made.1) ace.tag in
      let is_named = tag_code ace.tag == tag_code user || tag_code ace.tag == tag_code group in
      if is_named then (lib.set_qualifier tagged (made.1) ace.qual, made.1) else (tagged, made.1)

  abbrev pub with_perms_set : AccessControlEntry → lib.Acl × ℕ → lib.Acl
  with_perms_set ace (acl, entry) = set_perms acl entry (bits_of ace.perms)

  -- -m
  unfoldable pub modify_entry : AccessControlEntry → lib.Acl → lib.Acl
  unfolding set_perms create_for find_entry
  modify_entry ace acl = elim (find_entry ace.tag ace.qual (lib.entries acl)) [
    | none ↦ with_perms_set ace (create_for ace acl)
    | some entry ↦ with_perms_set ace (acl, entry)
  ]

  -- -x
  unfoldable pub remove_entry : AccessControlEntry → lib.Acl → lib.Acl
  unfolding find_entry
  remove_entry ace acl = elim (find_entry ace.tag ace.qual (lib.entries acl)) [
    | none ↦ acl
    | some entry ↦ lib.delete_entry acl entry
  ]

  -- One entry of the specification, up to the recalculation of the mask.
  unfoldable pub applied : Bool → Bool → AccessControlEntry → lib.Acl → lib.Acl
  unfolding modify_entry remove_entry
  applied remove_acl recalc_mask ace acl =
      let changed = if remove_acl then remove_entry ace acl else modify_entry ace acl in
      if recalc_mask then lib.calc_mask changed else changed

  -- The loop over the entries; `acl` is the ACL in memory, and that of the file.
  unfoldable pub update_file : Bool → Bool → List AccessControlEntry → lib.Acl → UpdateEnd lib.Acl
  unfolding applied
  update_file remove_acl recalc_mask [] acl = finished acl
  update_file remove_acl recalc_mask (ace ∷ aces) acl =
      let next = applied remove_acl recalc_mask ace acl in
      let rest = update_file remove_acl recalc_mask aces next in
      if not (lib.valid next)
      then refused acl
      else if not (lib.set_file next)
      then refused acl
      else rest
