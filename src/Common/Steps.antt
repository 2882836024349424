-- ===== src/Common/Steps.antt =====
-- Runs of a step relation, and an invariant of all of them.
module _ {A : Type 0} (Step : A → A → Type 0) where
  pub data Run : A → A → Type 0 where
    start : {s : A} → Run s s
    then : {s t u : A} → Run s t → Step t u → Run s u

  -- What each step keeps, every run keeps.
  pub Run-keeps :
      (Inv : A → Type 0)
      → ((s t : A) → Inv s → Step s t → Inv t)
      → (s t : A) → Inv s
      → Run s t
      → Inv t
  Run-keeps Inv keeps s _ h start = h
  Run-keeps Inv keeps s _ h (then run step) = keeps _ _ (Run-keeps Inv keeps s _ h run) step
