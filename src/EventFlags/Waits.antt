-- ===== src/EventFlags/Waits.antt =====
-- The moment at which a wait ends.
use linux_programming_interf.Common.{
  ℕ, ◌≡◌, ◌≢◌, List, [], ◌∷◌, ◌++◌, ◌==◌, inl, inr, Bool-cases, arith,
}
use linux_programming_interf.Sockets.ReadLine.{eintr}
use linux_programming_interf.EventFlags.{
  Moment, value, semop_error, WaitResult, set_seen, failed, waiting, wait_for_event_flag,
}

-- The flag is clear all the time, and only interruptions happen.
abbrev pub StaysClear : List Moment → Type 0
StaysClear [] = Unit
StaysClear (value v ∷ ms) = (v ≢ 0) × StaysClear ms
StaysClear (semop_error e ∷ ms) = (e ≡ eintr) × StaysClear ms

pub data Waits : List Moment → WaitResult → Type 0 where
  until_set :
      {rest : List Moment} (before : List Moment)
      → StaysClear before
      → Waits (before ++ value 0 ∷ rest) (set_seen rest)
  until_error :
      {rest : List Moment} (before : List Moment) (e : ℕ)
      → StaysClear before
      → e ≢ eintr
      → Waits (before ++ semop_error e ∷ rest) (failed e rest)
  always : {ms : List Moment} → StaysClear ms → Waits ms waiting

Waits-value :
    (v : ℕ) (ms : List Moment) (r : WaitResult) → v ≢ 0 → Waits ms r → Waits (value v ∷ ms) r
Waits-value v _ _ clear (until_set before h) = until_set (value v ∷ before) (clear, h)
Waits-value v _ _ clear (until_error before e h other) =
    until_error (value v ∷ before) e (clear, h) other
Waits-value v _ _ clear (always h) = always (clear, h)

Waits-error :
    (e : ℕ) (ms : List Moment) (r : WaitResult)
    → e ≡ eintr
    → Waits ms r
    → Waits (semop_error e ∷ ms) r
Waits-error e _ _ same (until_set before h) = until_set (semop_error e ∷ before) (same, h)
Waits-error e _ _ same (until_error before e' h other) =
    until_error (semop_error e ∷ before) e' (same, h) other
Waits-error e _ _ same (always h) = always (same, h)

-- waitForEventFlag: the call returns 0 at the first moment at which the flag is set, fails at the
-- first error other than EINTR if that comes before, and waits as long as neither happens.
pub wait_for_event_flag-Waits : (ms : List Moment) → Waits ms (wait_for_event_flag ms)
unfolding wait_for_event_flag
wait_for_event_flag-Waits [] = always tt
wait_for_event_flag-Waits (value v ∷ ms) = elim (Bool-cases (v == 0)) [
  | inl set ↦
      let zero_now : v ≡ 0 = ground (arith, set) in
      rw (zero_now, wait_for_event_flag) (until_set [] tt)
  | inr clear ↦
      rw (clear, wait_for_event_flag)
        (Waits-value v ms (wait_for_event_flag ms) (λ e. ground (arith, clear, e))
          (wait_for_event_flag-Waits ms))
]
wait_for_event_flag-Waits (semop_error e ∷ ms) = elim (Bool-cases (e == eintr)) [
  | inl again ↦
      rw (again, wait_for_event_flag)
        (Waits-error e ms (wait_for_event_flag ms) (ground (arith, again))
          (wait_for_event_flag-Waits ms))
  | inr other ↦
      rw (other, wait_for_event_flag) (until_error [] e tt (λ e'. ground (arith, other, e')))
]
