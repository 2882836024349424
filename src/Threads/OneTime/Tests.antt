-- ===== src/Threads/OneTime/Tests.antt =====
-- A run of two threads, and the theorems at its states.
use linux_programming_interf.Common.{ℕ, ◌≤◌, ◌≡◌, ◌⊎◌, refl, true, [], ◌∷◌}
use linux_programming_interf.Common.Steps.{Run, start, then}
use linux_programming_interf.Common.Sums.{sum}
use linux_programming_interf.Threads.OneTime.{
  outside, leaving, State, state_of, Step, lock, initialise, mark, skip, unlock, initial,
}
use linux_programming_interf.Threads.OneTime.Once.{initialised_1, reached-Once}
use linux_programming_interf.Threads.OneTime.Progress.{pending_1, reached-Progress}

-- The second thread initialises, and the first one finds that done.
second_first : Run Step (initial (2 ∷ 2 ∷ [])) (state_of (leaving 1 ∷ outside 1 ∷ []) true true 1 1)
second_first =
    then
      (then
        (then (then (then (then start (lock 1 1 refl)) (initialise 1 1 refl)) (mark 1 1 refl))
          (unlock 1 1 refl))
        (lock 0 1 refl))
      (skip 0 1 refl)

abbrev once : ℕ
once = 1

reached-Once_example :
    (once ≤ 1)
    × ((once ≡ 0)
        ⊎ ((once ≡ 1) × (true ≡ true) × (sum initialised_1 (leaving 1 ∷ outside 1 ∷ []) ≡ 0)))
reached-Once_example =
    reached-Once (2 ∷ 2 ∷ []) (leaving 1 ∷ outside 1 ∷ []) true true 1 1 second_first

reached-Progress_example :
    (sum pending_1 (leaving 1 ∷ outside 1 ∷ []) ≡ 0)
    ⊎ ((t : State) × Step (state_of (leaving 1 ∷ outside 1 ∷ []) true true 1 1) t)
reached-Progress_example =
    reached-Progress (2 ∷ 2 ∷ []) (leaving 1 ∷ outside 1 ∷ []) true true 1 1 second_first
