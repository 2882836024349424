-- ===== src/UsernsChild/Modified.antt =====
-- What an option -X does to the capability sets.
use linux_programming_interf.Common.{
  ℕ, ◌≡◌, ◌≢◌, refl, sym, ap, ◌∙◌, true, none, some, [], ◌∷◌, ◌++◌, ◌==◌, inl, inr, Bool-cases,
  Option-cases,
}
use linux_programming_interf.Common.Text.{CString}
use linux_programming_interf.UsernsChild.Capabilities.{
  CapKernel, is_op, until_op, all_letters, with_op, modify_individual_capability,
}
use linux_programming_interf.UsernsChild.Settings.{AreSet, AreDropped, AreAmbient}
use linux_programming_interf.UsernsChild.Letters.{modify_letters-AreSet}

until_op-split :
    (xs letters rest : CString)
    → until_op xs ≡ (letters, rest)
    → (xs ≡ letters ++ rest) × ((op : ℕ) (name : CString) → rest ≡ op ∷ name → is_op op ≡ true)
unfolding until_op
until_op-split [] letters rest h =
    let none_before : letters ≡ [] = ap (λ p. p.0) (sym h) in
    let none_behind : rest ≡ [] = ap (λ p. p.1) (sym h) in
    (
      rw (none_before, none_behind) refl,
      (λ op name e. let no : [] ≡ op ∷ name = sym none_behind ∙ e in cc),
    )
until_op-split (c ∷ xs) letters rest h = elim (Bool-cases (is_op c)) [
  | inl stops ↦
      let e : ◌≡◌ {A = CString × CString} ([], c ∷ xs) (letters, rest) = rw stops at h in
      let none_before : letters ≡ [] = ap (λ p. p.0) (sym e) in
      let behind : rest ≡ c ∷ xs = ap (λ p. p.1) (sym e) in
      (
        rw (none_before, behind) refl,
        (λ op name e'. let same : c ≡ op = first_of (sym behind ∙ e') in rw (sym same) stops),
      )
  | inr goes_on ↦
      let e : ◌≡◌ {A = CString × CString} (c ∷ (until_op xs).0, (until_op xs).1) (letters, rest) =
        rw goes_on at h in
      let (split, op_at) = until_op-split xs ((until_op xs).0) rest (pair_of e) in
      (ap (λ l. c ∷ l) split ∙ rw (ap (λ p. p.0) (sym e)) refl, op_at)
]
  where
    first_of : {a b : ℕ} {xs ys : CString} → a ∷ xs ≡ b ∷ ys → a ≡ b
    first_of e = cc

    pair_of :
        {c : ℕ} {l : CString} {p : CString × CString} {r : CString}
        → ◌≡◌ {A = CString × CString} (c ∷ p.0, p.1) (l, r)
        → ◌≡◌ {A = CString × CString} p (p.0, r)
    pair_of {p = (a, b)} e = ap (λ q. (a, q)) (ap (λ q. q.1) e)

-- The option -X as it was performed.
abbrev pub IsModified : (k : CapKernel) → CString → k.State → k.State → Type 0
IsModified k optval s s' =
    (letters : CString) × (op : ℕ) × (name : CString) × (cap : ℕ) × (optval ≡ letters ++ op ∷ name)
    × (is_op op ≡ true)
    × (all_letters letters ≡ true)
    × (name ≢ [])
    × (k.cap_from_name name ≡ some cap)
    × AreSet k letters cap (op == b'+') s s'
    × AreDropped k letters cap (op == b'+') s s'
    × AreAmbient k letters cap (op == b'+') s s'

with_op-IsModified :
    (k : CapKernel) (optval letters rest : CString) (s s' : k.State)
    → until_op optval ≡ (letters, rest)
    → with_op k letters rest s ≡ some s'
    → IsModified k optval s s'
with_op-IsModified k optval letters [] s s' e h = cc
with_op-IsModified k optval letters (op ∷ []) s s' e h = cc
with_op-IsModified k optval letters (op ∷ c ∷ cs) s s' e h =
    elim (Bool-cases (all_letters letters)) [
      | inl good ↦ elim (Option-cases (k.cap_from_name (c ∷ cs))) [
        | inl unknown ↦
            let stops : none ≡ some s' = rw (good, unknown) at h in absurd (let no : ⊥ = cc in no)
        | inr (cap, named) ↦
            let (split, op_at) = until_op-split optval letters (op ∷ c ∷ cs) e in
            let (sets, dropped, ambient) =
              modify_letters-AreSet k letters cap (op == b'+') s s' (rw (good, named) at h) in
            (
              letters,
              op,
              c ∷ cs,
              cap,
              split,
              op_at op (c ∷ cs) refl,
              good,
              (λ no. cc),
              named,
              sets,
              dropped,
              ambient,
            )
      ]
      | inr bad ↦ let stops : none ≡ some s' = rw bad at h in absurd (let no : ⊥ = cc in no)
    ]

-- When modify_individual_capability returns, its argument is letters of "peiba", an operator and the
-- name of a capability that libcap knows. Of the permitted, effective and inheritable sets exactly
-- those of the letters have the capability set or cleared as the operator says. With the letter b the
-- operator is '-', and the bounding set lacks the capability; without it that set is as it was.
-- The ambient set has the capability with the letter a and '+', lacks it with a, p or i and '-', and
-- is as it was otherwise. No set of the five has another capability changed.
pub modify_individual_capability-IsModified :
    (k : CapKernel) (optval : CString) (s s' : k.State)
    → modify_individual_capability k optval s ≡ some s'
    → IsModified k optval s s'
unfolding modify_individual_capability
modify_individual_capability-IsModified k optval s s' h =
    with_op-IsModified k optval ((until_op optval).0) ((until_op optval).1) s s' refl h
