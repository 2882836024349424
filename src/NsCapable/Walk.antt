-- ===== src/NsCapable/Walk.antt =====
-- The walk of is_ancestor_userns against the chain of the ancestors.
use linux_programming_interf.Common.{
  ℕ, zero, suc, ◌<◌, ◌≡◌, ◌≢◌, refl, sym, ◌∙◌, Option, none, some, List, [], ◌∷◌, inl, inr,
  Bool-cases, length, arith, if◌then◌else◌,
}
use linux_programming_interf.NsCapable.Kernel.{Stat, NsKernel, Ancestors, initial, below}
use linux_programming_interf.NsCapable.{
  same_stat, WalkResult, no_ancestor, descendant, exits, out_of_fuel, ns_equal, compared,
  with_parent, is_ancestor_userns,
}

-- The last namespace in front of `x`, on the way from `c` through its ancestors.
abbrev pub child_above : Stat → Stat → List Stat → Option Stat
child_above x c [] = none
child_above x c (t ∷ ts) = let rest = child_above x t ts in if same_stat t x then some c else rest

module _ (k : NsKernel) where
  -- What is open stays open, but for one descriptor.
  abbrev pub IsKeptBut : ℕ → k.Table → k.Table → Type 0
  IsKeptBut fd p p' =
      (other : ℕ) (s : Stat) → other ≢ fd → k.fstat p other ≡ some s → k.fstat p' other ≡ some s

  -- A result for the descendant that is expected, and what the walk leaves open.
  abbrev pub Walked : k.Table → ℕ → ℕ → Option Stat → WalkResult k.Table → Type 0
  Walked p fd_x child none (no_ancestor p') = IsKeptBut child p p'
  Walked p fd_x child (some d) (descendant fd p') =
      (k.fstat p' fd ≡ some d) × (fd ≢ fd_x) × IsKeptBut child p p'
  Walked p fd_x child _ _ = ⊥

  pub open_fresh : (p : k.Table) (fd : ℕ) (s : Stat) → k.fstat p fd ≡ some s → fd ≢ k.fresh p
  open_fresh p fd s h e =
      let shut : k.fstat p fd ≡ none = rw e (k.fresh_shut p) in let no : ⊥ = cc in no

  pub opened_kept :
      (p : k.Table) (t s : Stat) (fd : ℕ)
      → k.fstat p fd ≡ some s
      → k.fstat (k.opened p t) fd ≡ some s
  opened_kept p t s fd h = k.opened_other p t fd (open_fresh p fd s h) ∙ h

  -- A round that does not find the namespace leaves the others open.
  pub round_kept :
      (p : k.Table) (t : Stat) (child : ℕ) → IsKeptBut child p ((k.close (k.opened p t) child).1)
  round_kept p t child other s differ h =
      k.close_other (k.opened p t) child other differ ∙ opened_kept p t s other h

  pub found_kept :
      (p : k.Table) (t s : Stat) (fd : ℕ)
      → k.fstat p fd ≡ some s
      → k.fstat ((k.close (k.opened p t) (k.fresh p)).1) fd ≡ some s
  found_kept p t s fd h =
      k.close_other (k.opened p t) (k.fresh p) fd (open_fresh p fd s h) ∙ opened_kept p t s fd h

  pub ns_equal_open :
      (p : k.Table) (fd fd' : ℕ) (s s' : Stat)
      → k.fstat p fd ≡ some s
      → k.fstat p fd' ≡ some s'
      → ns_equal k p fd fd' ≡ some (same_stat s s')
  unfolding ns_equal
  ns_equal_open p fd fd' s s' h h' = rw (h, h') refl

  Walked-round :
      (p q : k.Table) (fd_x child parent : ℕ) (o : Option Stat) (r : WalkResult k.Table)
      → IsKeptBut child p q
      → k.fstat p parent ≡ none
      → Walked q fd_x parent o r
      → Walked p fd_x child o r
  Walked-round p q fd_x child parent none (no_ancestor p') kept new h =
      λ other s differ e. h other s (λ same. let no : ⊥ = cc in no) (kept other s differ e)
  Walked-round p q fd_x child parent (some d) (descendant fd p') kept new h = (
    h.0,
    h.1,
    λ other s differ e. h.2 other s (λ same. let no : ⊥ = cc in no) (kept other s differ e),
  )
  Walked-round p q fd_x child parent none (descendant fd p') kept new h = h
  Walked-round p q fd_x child parent none exits kept new h = h
  Walked-round p q fd_x child parent none out_of_fuel kept new h = h
  Walked-round p q fd_x child parent (some d) (no_ancestor p') kept new h = h
  Walked-round p q fd_x child parent (some d) exits kept new h = h
  Walked-round p q fd_x child parent (some d) out_of_fuel kept new h = h

  pub is_ancestor_userns-Walked :
      (rounds fd_x child : ℕ) (x c : Stat) (p : k.Table) (ts : List Stat)
      → k.fstat p fd_x ≡ some x
      → k.fstat p child ≡ some c
      → child ≢ fd_x
      → Ancestors k c ts
      → length ts < rounds
      → Walked p fd_x child (child_above x c ts) (is_ancestor_userns k rounds fd_x p child)
  unfolding is_ancestor_userns with_parent compared
  is_ancestor_userns-Walked zero fd_x child x c p ts hx hc differ chain enough =
      absurd (let no : ⊥ = omega (arith, enough) in no)
  is_ancestor_userns-Walked (suc rounds) fd_x child x c p [] hx hc differ (initial root) enough =
      rw (k.get_parent_root p child c hc root) (λ other s other_one e. e)
  is_ancestor_userns-Walked (suc rounds) fd_x child x c p (t ∷ ts) hx hc differ (below step chain)
        enough =
      let found = k.get_parent_result p child c t hc step in
      let equal =
        ns_equal_open (k.opened p t) (k.fresh p) fd_x t x (k.opened_fresh p t)
          (opened_kept p t x fd_x hx) in
      elim (Bool-cases (same_stat t x)) [
        | inl same ↦
            rw (found, equal, same)
              (found_kept p t c child hc, differ, (λ other s other_one e. found_kept p t s other e))
        | inr not_same ↦
            rw (found, equal, not_same)
              (Walked-round p ((k.close (k.opened p t) child).1) fd_x child (k.fresh p)
                (child_above x t ts)
                (is_ancestor_userns k rounds fd_x ((k.close (k.opened p t) child).1) (k.fresh p))
                (round_kept p t child) (k.fresh_shut p)
                (is_ancestor_userns-Walked rounds fd_x (k.fresh p) x t
                  ((k.close (k.opened p t) child).1) ts
                  (round_kept p t child fd_x x (λ e. differ (sym e)) hx)
                  (k.close_other (k.opened p t) child (k.fresh p)
                      (λ e. open_fresh p child c hc (sym e))
                    ∙ k.opened_fresh p t)
                  (λ e. open_fresh p fd_x x hx (sym e)) chain (omega (arith, enough))))
      ]
