-- ===== src/Acl/Refine.antt =====
-- The updates of a file's ACL, against what the specification asks for each user and group.
use linux_programming_interf.Common.{
  ℕ, ◌≡◌, ◌≢◌, refl, ap, ◌∙◌, Bool, false, ◌&&◌, List, [], ◌∷◌, ◌++◌, ◌⊎◌, inl, inr, Bool-cases,
}
use linux_programming_interf.Acl.{Tag, mask, AccessControlEntry}
use linux_programming_interf.Acl.Entries.{granted}
use linux_programming_interf.Acl.Library.{AclLibrary}
use linux_programming_interf.Acl.Update.{UpdateEnd, finished, refused, applied, update_file}
use linux_programming_interf.Acl.Applied.{change, changes, granted-applied}

module _ (lib : AclLibrary) where
  -- What is asked of the end of the loop for one key: after all entries, the permissions are those
  -- that the entries ask for, one after the other; when one is refused, those that the entries
  -- before it ask for.
  abbrev pub MeetsRequest :
      Bool → Bool → List AccessControlEntry → lib.Acl → Tag → ℕ → UpdateEnd lib.Acl → Type 0
  MeetsRequest remove_acl recalc_mask aces acl t q (finished final) =
      granted t q (lib.entries final) ≡ changes remove_acl aces t q (granted t q (lib.entries acl))
  MeetsRequest remove_acl recalc_mask aces acl t q (refused final) =
      (before : List AccessControlEntry) × (ace : AccessControlEntry) × (behind : List
        AccessControlEntry)
      × (aces ≡ before ++ ace ∷ behind)
      × (granted t q (lib.entries final)
          ≡ changes remove_acl before t q (granted t q (lib.entries acl)))
      × ((lib.valid (applied lib remove_acl recalc_mask ace final)
            && lib.set_file (applied lib remove_acl recalc_mask ace final))
          ≡ false)

  -- One more entry in front.
  MeetsRequest-cons :
      (remove_acl recalc_mask : Bool) (ace : AccessControlEntry) (aces : List AccessControlEntry)
      (acl next : lib.Acl) (t : Tag) (q : ℕ) (end : UpdateEnd lib.Acl)
      → granted t q (lib.entries next) ≡ change remove_acl ace t q (granted t q (lib.entries acl))
      → MeetsRequest remove_acl recalc_mask aces next t q end
      → MeetsRequest remove_acl recalc_mask (ace ∷ aces) acl t q end
  MeetsRequest-cons remove_acl recalc_mask ace aces acl next t q (finished final) step h =
      h ∙ ap (changes remove_acl aces t q) step
  MeetsRequest-cons remove_acl recalc_mask ace aces acl next t q (refused final) step
        (before, last, behind, split, h, bad) =
      (
        ace ∷ before,
        last,
        behind,
        ap (λ es. ace ∷ es) split,
        h ∙ ap (changes remove_acl before t q) step,
        bad,
      )

  -- The loop of `main` over the entries of the specification, for any libacl: for every tag type and ID,
  -- but ACL_MASK's when the mask is recalculated, the file ends with the permissions that the entries
  -- ask for, applied in order to those it had (-x removes the first entry for the key, -m replaces
  -- its permissions or begins with them), if all are applied; otherwise the loop stops at an entry
  -- after which the ACL is invalid or cannot be set, and the file has what the entries before that one
  -- ask for.
  pub update_file-MeetsRequest :
      (remove_acl recalc_mask : Bool) (aces : List AccessControlEntry) (acl : lib.Acl) (t : Tag)
      (q : ℕ)
      → (recalc_mask ≡ false) ⊎ (t ≢ mask)
      → MeetsRequest remove_acl recalc_mask aces acl t q
          (update_file lib remove_acl recalc_mask aces acl)
  unfolding update_file
  update_file-MeetsRequest remove_acl recalc_mask [] acl t q h = refl
  update_file-MeetsRequest remove_acl recalc_mask (ace ∷ aces) acl t q h =
      let next = applied lib remove_acl recalc_mask ace acl in
      elim (Bool-cases (lib.valid next)) [
        | inr invalid ↦ rw (invalid, update_file) ([], ace, aces, refl, refl, rw invalid refl)
        | inl is_valid ↦ elim (Bool-cases (lib.set_file next)) [
          | inr failed ↦
              rw (is_valid, failed, update_file)
                ([], ace, aces, refl, refl, rw (is_valid, failed) refl)
          | inl set ↦
              rw (is_valid, set, update_file)
                (MeetsRequest-cons remove_acl recalc_mask ace aces acl next t q _
                  (granted-applied lib remove_acl recalc_mask ace acl t q h)
                  (update_file-MeetsRequest remove_acl recalc_mask aces next t q h))
        ]
      ]
