-- ===== src/Acl/Granted.antt =====
-- What a change at one place does to the permissions of each key.
use linux_programming_interf.Common.{
  ℕ, zero, suc, ◌≡◌, refl, sym, ap, ◌∙◌, true, false, none, some, List, [], ◌∷◌, ◌⊎◌, Bool-cases,
  inl, inr, if◌then◌else◌,
}
use linux_programming_interf.Acl.{Tag, Perms}
use linux_programming_interf.Acl.Entries.{
  AclEntry, same_key, granted, update_at, remove_at, insert_at, find_entry, renew, tail,
  same_key_trans, same_key_left,
}

-- The first entry for a key, with its place.
pub data IsFirst (t : Tag) (q : ℕ) : List AclEntry → ℕ → Type 0 where
  here :
      {e : AclEntry} {es : List AclEntry}
      → same_key t q e.tag e.qualifier ≡ true
      → IsFirst t q (e ∷ es) zero
  there :
      {e : AclEntry} {es : List AclEntry} {i : ℕ}
      → same_key t q e.tag e.qualifier ≡ false
      → IsFirst t q es i
      → IsFirst t q (e ∷ es) (suc i)

module _ (t : Tag) (q : ℕ) where
  -- Either no entry is found, and the key has no permissions, or the first one is.
  abbrev pub Found : List AclEntry → Type 0
  Found es =
      ((find_entry t q es ≡ none) × (granted t q es ≡ []))
      ⊎ ((i : ℕ) × (find_entry t q es ≡ some i) × IsFirst t q es i)

  pub find_entry-Found : (es : List AclEntry) → Found es
  unfolding find_entry granted
  find_entry-Found [] = inl (refl, refl)
  find_entry-Found (e ∷ es) = elim (Bool-cases (same_key t q e.tag e.qualifier)) [
    | inl same ↦ inr (0, rw same refl, here same)
    | inr differ ↦ elim (find_entry-Found es) [
      | inl (missing, nothing) ↦ inl (rw (differ, missing) refl, rw (differ, nothing) refl)
      | inr (i, found, first) ↦ inr (suc i, rw (differ, found) refl, there differ first)
    ]
  ]

  pub granted-update_at :
      (p : Perms) (t' : Tag) (q' : ℕ) (es : List AclEntry) (i : ℕ)
      → IsFirst t q es i
      → granted t' q' (update_at i (λ e. record e { permset = p }) es)
        ≡ (if same_key t q t' q' then renew p (granted t' q' es) else granted t' q' es)
  unfolding granted
  granted-update_at p t' q' [] i h = elim h [ ]
  granted-update_at p t' q' (e ∷ es) zero (here same) =
      let k = same_key_trans t q t' q' e.tag e.qualifier same in
      elim (Bool-cases (same_key t q t' q')) [
        | inl hit ↦ rw (k, hit) refl
        | inr miss ↦ rw (k, miss) refl
      ]
  granted-update_at p t' q' (e ∷ es) (suc i) (there differ first) =
      let ih = granted-update_at p t' q' es i first in
      elim (Bool-cases (same_key t q t' q')) [
        | inl hit ↦
            let k = sym (same_key_left t q t' q' e.tag e.qualifier hit) ∙ differ in
            rw (k, hit) (ih ∙ rw hit refl)
        | inr miss ↦ elim (Bool-cases (same_key t' q' e.tag e.qualifier)) [
          | inl mine ↦ rw (mine, miss) (ap (λ ps. e.permset ∷ ps) (ih ∙ rw miss refl))
          | inr skips ↦ rw (skips, miss) (ih ∙ rw miss refl)
        ]
      ]

  pub granted-remove_at :
      (t' : Tag) (q' : ℕ) (es : List AclEntry) (i : ℕ)
      → IsFirst t q es i
      → granted t' q' (remove_at i es)
        ≡ (if same_key t q t' q' then tail (granted t' q' es) else granted t' q' es)
  unfolding granted
  granted-remove_at t' q' [] i h = elim h [ ]
  granted-remove_at t' q' (e ∷ es) zero (here same) =
      let k = same_key_trans t q t' q' e.tag e.qualifier same in
      elim (Bool-cases (same_key t q t' q')) [
        | inl hit ↦ rw (k, hit) refl
        | inr miss ↦ rw (k, miss) refl
      ]
  granted-remove_at t' q' (e ∷ es) (suc i) (there differ first) =
      let ih = granted-remove_at t' q' es i first in
      elim (Bool-cases (same_key t q t' q')) [
        | inl hit ↦
            let k = sym (same_key_left t q t' q' e.tag e.qualifier hit) ∙ differ in
            rw (k, hit) (ih ∙ rw hit refl)
        | inr miss ↦ elim (Bool-cases (same_key t' q' e.tag e.qualifier)) [
          | inl mine ↦ rw (mine, miss) (ap (λ ps. e.permset ∷ ps) (ih ∙ rw miss refl))
          | inr skips ↦ rw (skips, miss) (ih ∙ rw miss refl)
        ]
      ]

-- An entry for another key changes nothing; for a key without permissions, it is all there is.
pub granted-insert_at :
    (t' : Tag) (q' : ℕ) (i : ℕ) (e : AclEntry) (es : List AclEntry)
    → same_key t' q' e.tag e.qualifier ≡ false
    → granted t' q' (insert_at i e es) ≡ granted t' q' es
unfolding granted
granted-insert_at t' q' zero e es differ = rw differ refl
granted-insert_at t' q' (suc i) e [] differ = rw differ refl
granted-insert_at t' q' (suc i) e (x ∷ es) differ = rw (granted-insert_at t' q' i e es differ) refl

pub granted-insert_at_new :
    (t' : Tag) (q' : ℕ) (i : ℕ) (e : AclEntry) (es : List AclEntry)
    → same_key t' q' e.tag e.qualifier ≡ true
    → granted t' q' es ≡ []
    → granted t' q' (insert_at i e es) ≡ e.permset ∷ []
unfolding granted
granted-insert_at_new t' q' zero e es same h = rw (same, h) refl
granted-insert_at_new t' q' (suc i) e [] same h = rw same refl
granted-insert_at_new t' q' (suc i) e (x ∷ es) same h =
    elim (Bool-cases (same_key t' q' x.tag x.qualifier)) [
      | inl mine ↦
          let full : granted t' q' (x ∷ es) ≡ x.permset ∷ granted t' q' es = rw mine refl in
          let bad : (x.permset ∷ granted t' q' es) ≡ [] = sym full ∙ h in cc
      | inr skips ↦
          let rest : granted t' q' es ≡ granted t' q' (x ∷ es) = rw skips refl in
          rw skips (granted-insert_at_new t' q' i e es same (rest ∙ h))
    ]

-- A key in two spellings.
pub granted_left :
    (t : Tag) (q : ℕ) (t' : Tag) (q' : ℕ) (es : List AclEntry)
    → same_key t q t' q' ≡ true
    → granted t q es ≡ granted t' q' es
unfolding granted
granted_left t q t' q' [] h = refl
granted_left t q t' q' (e ∷ es) h =
    rw (same_key_left t q t' q' e.tag e.qualifier h, granted_left t q t' q' es h) refl
