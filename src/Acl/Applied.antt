-- ===== src/Acl/Applied.antt =====
-- What one entry of the specification does to the permissions of each user and group.
use linux_programming_interf.Common.{
  ℕ, zero, suc, ◌≤◌, ◌≡◌, ◌≢◌, refl, sym, ap, ◌∙◌, Bool, true, false, ◌||◌, List, [], ◌∷◌, ◌==◌,
  ◌⊎◌, inl, inr, Bool-cases, length, arith, if◌then◌else◌,
}
use linux_programming_interf.Acl.{Tag, user, group, mask, Perms, no_perms, AccessControlEntry}
use linux_programming_interf.Acl.Entries.{
  AclEntry, tag_code, same_key, granted, update_at, insert_at, undefined_id, blank, renew, tail,
}
use linux_programming_interf.Acl.Granted.{
  find_entry-Found, granted_left, granted-update_at, granted-remove_at, granted-insert_at,
  granted-insert_at_new,
}
use linux_programming_interf.Acl.Library.{
  AclLibrary, Permission, acl_read, acl_write, acl_execute, with_permission,
}
use linux_programming_interf.Acl.Update.{
  bits_of, add_if, filled, set_perms, create_for, with_perms_set, modify_entry, remove_entry,
  applied,
}

-- What one entry asks for the permissions of a key: under -x they are removed, under -m they are
-- replaced or begun.
abbrev pub change : Bool → AccessControlEntry → Tag → ℕ → List Perms → List Perms
change remove_acl ace t q ps =
    if same_key ace.tag ace.qual t q
    then (if remove_acl then tail ps else renew (bits_of ace.perms) ps)
    else ps

abbrev pub changes : Bool → List AccessControlEntry → Tag → ℕ → List Perms → List Perms
changes remove_acl [] t q ps = ps
changes remove_acl (ace ∷ aces) t q ps = changes remove_acl aces t q (change remove_acl ace t q ps)

update_at-insert_at :
    (f : AclEntry → AclEntry) (i : ℕ) (e : AclEntry) (es : List AclEntry)
    → i ≤ length es
    → update_at i f (insert_at i e es) ≡ insert_at i (f e) es
update_at-insert_at f zero e es h = refl
update_at-insert_at f (suc i) e [] h = absurd (let no : ⊥ = omega (arith, h) in no)
update_at-insert_at f (suc i) e (x ∷ es) h =
    ap (λ es. x ∷ es) (update_at-insert_at f i e es (omega (arith, h)))

-- The ID of a created entry: that of the specification, if there can be one.
abbrev created_id : AccessControlEntry → ℕ
created_id ace =
    if tag_code ace.tag == tag_code user || tag_code ace.tag == tag_code group
    then ace.qual
    else undefined_id

same_key-created_id :
    (ace : AccessControlEntry) (t : Tag) (q : ℕ)
    → same_key t q ace.tag (created_id ace) ≡ same_key ace.tag ace.qual t q
unfolding same_key
same_key-created_id ace t q = ground arith

abbrev if_asked : Bool → Permission → Perms → Perms
if_asked asked x p = if asked then with_permission x p else p

bits-added :
    (r w x : Bool)
    → if_asked x acl_execute (if_asked w acl_write (if_asked r acl_read no_perms))
      ≡ record { read = r; write = w; execute = x }
bits-added true true true = refl
bits-added true true false = refl
bits-added true false true = refl
bits-added true false false = refl
bits-added false true true = refl
bits-added false true false = refl
bits-added false false true = refl
bits-added false false false = refl

module _ (lib : AclLibrary) where
  add_if-with_permission :
      (asked : Bool) (x : Permission) (p : Perms) → add_if lib asked x p ≡ if_asked asked x p
  add_if-with_permission true x p = lib.add_perm_result p x
  add_if-with_permission false x p = refl

  filled_lem : (perms permset : Perms) → filled lib perms permset ≡ perms
  unfolding filled
  filled_lem perms permset =
      let readable =
        ap (add_if lib perms.read acl_read) (lib.clear_perms_result permset)
        ∙ add_if-with_permission perms.read acl_read no_perms in
      let writable =
        ap (add_if lib perms.write acl_write) readable
        ∙ add_if-with_permission perms.write acl_write _ in
      ap (add_if lib perms.execute acl_execute) writable
      ∙ add_if-with_permission perms.execute acl_execute _
      ∙ bits-added perms.read perms.write perms.execute

  entries-set_perms :
      (acl : lib.Acl) (i : ℕ) (p : Perms)
      → lib.entries (set_perms lib acl i p)
        ≡ update_at i (λ e. record e { permset = p }) (lib.entries acl)
  unfolding set_perms
  entries-set_perms acl i p =
      lib.set_permset_entries acl i (filled lib p (lib.get_permset acl i))
      ∙ ap (λ p. update_at i (λ e. record e { permset = p }) (lib.entries acl))
          (filled_lem p (lib.get_permset acl i))

  entries-create_for :
      (ace : AccessControlEntry) (acl : lib.Acl)
      → lib.entries ((create_for lib ace acl).0)
        ≡ insert_at
            ((lib.create_entry acl).1)
            (record { tag = ace.tag; qualifier = created_id ace; permset = no_perms })
            (lib.entries acl)
  unfolding create_for
  entries-create_for ace acl =
      let made = lib.create_entry acl in
      let begun = lib.create_entry_entries acl in
      let put_at = (λ (f : AclEntry → AclEntry) (e : AclEntry).
        update_at-insert_at f made.1 e (lib.entries acl) (lib.create_entry_place acl)) in
      let tagged =
        lib.set_tag_type_entries made.0 made.1 ace.tag
        ∙ ap (update_at made.1 (λ e. record e { tag = ace.tag })) begun
        ∙ put_at (λ e. record e { tag = ace.tag }) blank in
      elim (Bool-cases (tag_code ace.tag == tag_code user || tag_code ace.tag == tag_code group)) [
        | inl is_named ↦ rw is_named (
            lib.set_qualifier_entries (lib.set_tag_type made.0 made.1 ace.tag) made.1 ace.qual
            ∙ ap (update_at made.1 (λ e. record e { qualifier = ace.qual })) tagged
            ∙ put_at (λ e. record e { qualifier = ace.qual })
                (record { tag = ace.tag; qualifier = undefined_id; permset = no_perms }))
        | inr is_not ↦ rw is_not tagged
      ]

  -- The place that `create_for` returns is that of the new entry.
  create_for-place :
      (ace : AccessControlEntry) (acl : lib.Acl)
      → (create_for lib ace acl).1 ≡ (lib.create_entry acl).1
  unfolding create_for
  create_for-place ace acl =
      elim (Bool-cases (tag_code ace.tag == tag_code user || tag_code ace.tag == tag_code group)) [
        | inl is_named ↦ rw is_named refl
        | inr is_not ↦ rw is_not refl
      ]

  -- A key without an entry: what is created for it are the permissions of that key, and no others.
  granted-created :
      (ace : AccessControlEntry) (acl : lib.Acl) (t : Tag) (q : ℕ)
      → granted ace.tag ace.qual (lib.entries acl) ≡ []
      → granted t q (lib.entries (with_perms_set lib ace (create_for lib ace acl)))
        ≡ change false ace t q (granted t q (lib.entries acl))
  granted-created ace acl t q nothing =
      let p = bits_of ace.perms in
      let es = lib.entries acl in
      let i = (lib.create_entry acl).1 in
      let entry : AclEntry = record { tag = ace.tag; qualifier = created_id ace; permset = p } in
      let bare : AclEntry = record {
        tag = ace.tag;
        qualifier = created_id ace;
        permset = no_perms;
      } in
      let made : lib.entries (with_perms_set lib ace (create_for lib ace acl))
          ≡ insert_at i entry es =
        entries-set_perms (create_for lib ace acl).0 (create_for lib ace acl).1 p
        ∙ ap
            (λ j.
              update_at j (λ e. record e { permset = p }) (lib.entries (create_for lib ace acl).0))
            (create_for-place ace acl)
        ∙ ap (update_at i (λ e. record e { permset = p })) (entries-create_for ace acl)
        ∙ update_at-insert_at (λ e. record e { permset = p }) i bare es
            (lib.create_entry_place acl) in
      elim (Bool-cases (same_key ace.tag ace.qual t q)) [
        | inl same ↦
            let empty : granted t q es ≡ [] =
              sym (granted_left ace.tag ace.qual t q es same) ∙ nothing in
            ap (granted t q) made
            ∙ granted-insert_at_new t q i entry es (same_key-created_id ace t q ∙ same) empty
            ∙ rw (same, empty) refl
        | inr differ ↦
            ap (granted t q) made
            ∙ granted-insert_at t q i entry es (same_key-created_id ace t q ∙ differ)
            ∙ rw differ refl
      ]

  granted-modify_entry :
      (ace : AccessControlEntry) (acl : lib.Acl) (t : Tag) (q : ℕ)
      → granted t q (lib.entries (modify_entry lib ace acl))
        ≡ change false ace t q (granted t q (lib.entries acl))
  unfolding modify_entry
  granted-modify_entry ace acl t q =
      let p = bits_of ace.perms in
      let es = lib.entries acl in
      elim (find_entry-Found ace.tag ace.qual es) [
        | inr (i, found, first) ↦
            rw (found, modify_entry)
              (ap (granted t q) (entries-set_perms acl i p)
                ∙ granted-update_at ace.tag ace.qual p t q es i first)
        | inl (missing, nothing) ↦ rw (missing, modify_entry) (granted-created ace acl t q nothing)
      ]

  granted-remove_entry :
      (ace : AccessControlEntry) (acl : lib.Acl) (t : Tag) (q : ℕ)
      → granted t q (lib.entries (remove_entry lib ace acl))
        ≡ change true ace t q (granted t q (lib.entries acl))
  unfolding remove_entry
  granted-remove_entry ace acl t q =
      let es = lib.entries acl in
      elim (find_entry-Found ace.tag ace.qual es) [
        | inr (i, found, first) ↦
            rw (found, remove_entry)
              (ap (granted t q) (lib.delete_entry_entries acl i)
                ∙ granted-remove_at ace.tag ace.qual t q es i first)
        | inl (missing, nothing) ↦
            rw (missing, remove_entry)
              (elim (Bool-cases (same_key ace.tag ace.qual t q)) [
                | inl same ↦
                    let empty : granted t q es ≡ [] =
                      sym (granted_left ace.tag ace.qual t q es same) ∙ nothing in
                    rw (same, empty) refl
                | inr differ ↦ rw differ refl
              ])
      ]

  granted-calc_mask :
      (acl : lib.Acl) (t : Tag) (q : ℕ)
      → (true ≡ false) ⊎ (t ≢ mask)
      → granted t q (lib.entries (lib.calc_mask acl)) ≡ granted t q (lib.entries acl)
  granted-calc_mask acl t q (inl never) = absurd (let no : ⊥ = cc in no)
  granted-calc_mask acl t q (inr differs) = lib.calc_mask_entries acl t q differs

  pub granted-applied :
      (remove_acl recalc_mask : Bool) (ace : AccessControlEntry) (acl : lib.Acl) (t : Tag) (q : ℕ)
      → (recalc_mask ≡ false) ⊎ (t ≢ mask)
      → granted t q (lib.entries (applied lib remove_acl recalc_mask ace acl))
        ≡ change remove_acl ace t q (granted t q (lib.entries acl))
  unfolding applied
  granted-applied true false ace acl t q h = granted-remove_entry ace acl t q
  granted-applied false false ace acl t q h = granted-modify_entry ace acl t q
  granted-applied true true ace acl t q h =
      granted-calc_mask _ t q h ∙ granted-remove_entry ace acl t q
  granted-applied false true ace acl t q h =
      granted-calc_mask _ t q h ∙ granted-modify_entry ace acl t q
