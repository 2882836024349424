-- ===== src/NsCapable/Above.antt =====
-- The namespace that the walk looks for, by the rules on the ancestors and owners of user namespaces.
use linux_programming_interf.Common.{
  ℕ, suc, ◌<◌, ◌≡◌, ◌≢◌, refl, sym, ap, ◌∙◌, true, ◌↔◌, none, some, List, [], ◌∷◌, inl, inr,
  Bool-cases, Option-cases, length, arith,
}
use linux_programming_interf.NsCapable.Kernel.{
  Stat, NsKernel, Ancestors, initial, below, HasAll, owner, inherited, IsAbove, parent, further,
}
use linux_programming_interf.NsCapable.{same_stat}
use linux_programming_interf.NsCapable.Walk.{child_above}

pub same_stat_iff : (s t : Stat) → (same_stat s t ≡ true) ↔ (s ≡ t)
same_stat_iff s t = ground arith

pub some_injective : {A : Type 0} {a b : A} → some a ≡ some b → a ≡ b
some_injective e = cc

module _ (k : NsKernel) where
  same_length :
      (s : Stat) (ts us : List Stat) → Ancestors k s ts → Ancestors k s us → length ts ≡ length us
  same_length s [] [] h h' = refl
  same_length s [] (u ∷ us) (initial e) (below e' h') = cc
  same_length s (t ∷ ts) [] (below e h) (initial e') = cc
  same_length s (t ∷ ts) (u ∷ us) (below e h) (below e' h') =
      let same : u ≡ t = some_injective (sym e' ∙ e) in
      let moved : Ancestors k t us = rw same at h' in ap suc (same_length t ts us h moved)

  -- What is found is above: its own chain is shorter.
  shorter :
      (x c d : Stat) (ts : List Stat)
      → Ancestors k c ts
      → child_above x c ts ≡ some d
      → (us : List Stat) × Ancestors k x us × (length us < length ts)
  shorter x c d [] h e = cc
  shorter x c d (t ∷ ts) (below step h) e = elim (Bool-cases (same_stat t x)) [
    | inl same ↦ let here : t ≡ x = (same_stat_iff t x).0 same in (ts, rw here at h, omega arith)
    | inr not_same ↦
        let (us, above, less) = shorter x t d ts h (rw not_same at e) in
        (us, above, omega (arith, less))
  ]

  pub no_cycle : (x : Stat) (ts : List Stat) → Ancestors k x ts → child_above x x ts ≡ none
  no_cycle x ts h = elim (Option-cases (child_above x x ts)) [
    | inl e ↦ e
    | inr (d, e) ↦
        let (us, above, less) = shorter x x d ts h e in
        absurd (let no : ⊥ = omega (arith, same_length x ts us h above, less) in no)
  ]

  pub HasAll-child :
      (x s : Stat) (euid : ℕ) (ts : List Stat)
      → Ancestors k s ts
      → HasAll k x euid s
      → (d : Stat) × (child_above x s ts ≡ some d) × (k.owner_of d ≡ euid)
  HasAll-child x s euid [] (initial root) (owner e same) = cc
  HasAll-child x s euid [] (initial root) (inherited e h) = cc
  HasAll-child x s euid (t ∷ ts) (below step chain) (owner e same) =
      let found : same_stat t x ≡ true = (same_stat_iff t x).1 (some_injective (sym step ∙ e)) in
      (s, rw found refl, same)
  HasAll-child x s euid (t ∷ ts) (below step chain) (inherited {t = u} e h) =
      let here : u ≡ t = some_injective (sym e ∙ step) in
      let (d, at_child, owned) = HasAll-child x t euid ts chain (rw here at h) in
      elim (Bool-cases (same_stat t x)) [
        | inl same ↦
            let itself : t ≡ x = (same_stat_iff t x).0 same in
            let none_above : child_above x t ts ≡ none =
              rw itself (no_cycle x ts (rw itself at chain)) in
            absurd (let no : ⊥ = cc in no)
        | inr not_same ↦ (d, rw not_same at_child, owned)
      ]

  pub child-HasAll :
      (x s d : Stat) (euid : ℕ) (ts : List Stat)
      → Ancestors k s ts
      → child_above x s ts ≡ some d
      → k.owner_of d ≡ euid
      → HasAll k x euid s
  child-HasAll x s d euid [] chain e owned = cc
  child-HasAll x s d euid (t ∷ ts) (below step chain) e owned = elim (Bool-cases (same_stat t x)) [
    | inl same ↦
        let here : t ≡ x = (same_stat_iff t x).0 same in
        let itself : s ≡ d = some_injective (rw same at e) in
        owner (step ∙ ap some here) (rw itself owned)
    | inr not_same ↦ inherited step (child-HasAll x t d euid ts chain (rw not_same at e) owned)
  ]

  pub IsAbove-child :
      (x s : Stat) (ts : List Stat) → Ancestors k s ts → IsAbove k x s → child_above x s ts ≢ none
  IsAbove-child x s [] (initial root) (parent e) gone = cc
  IsAbove-child x s [] (initial root) (further e h) gone = cc
  IsAbove-child x s (t ∷ ts) (below step chain) (parent e) gone =
      let found : same_stat t x ≡ true = (same_stat_iff t x).1 (some_injective (sym step ∙ e)) in
      let not_none : some s ≡ none = rw found at gone in cc
  IsAbove-child x s (t ∷ ts) (below step chain) (further {t = u} e h) gone =
      let here : u ≡ t = some_injective (sym e ∙ step) in
      elim (Bool-cases (same_stat t x)) [
        | inl same ↦ let not_none : some s ≡ none = rw same at gone in cc
        | inr not_same ↦ IsAbove-child x t ts chain (rw here at h) (rw not_same at gone)
      ]

  pub child-IsAbove :
      (x s d : Stat) (ts : List Stat)
      → Ancestors k s ts
      → child_above x s ts ≡ some d
      → IsAbove k x s
  child-IsAbove x s d [] chain e = cc
  child-IsAbove x s d (t ∷ ts) (below step chain) e = elim (Bool-cases (same_stat t x)) [
    | inl same ↦ parent (step ∙ ap some ((same_stat_iff t x).0 same))
    | inr not_same ↦ further step (child-IsAbove x t d ts chain (rw not_same at e))
  ]
