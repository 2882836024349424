-- ===== src/EventFlags.antt =====
-- book-src/svsem/event_flags.c: event flags on a System V semaphore, set when its value is 0.
pub mod Waits
mod Tests
use linux_programming_interf.Common.{
  ℕ, Bool, true, false, Option, none, some, List, [], ◌∷◌, ◌==◌, if◌then◌else◌,
}
use linux_programming_interf.Common.Int.{ℤ, pos, minus_one}
use linux_programming_interf.Sockets.ReadLine.{eintr}

-- What a semop() that waits for 0 meets: the semaphore's value, or an error that ends the call.
pub data Moment : Type 0 where
  value : ℕ → Moment
  semop_error : ℕ → Moment

-- 0 or -1 with `errno`, with the moments to come; or a call that still waits.
pub data WaitResult : Type 0 where
  set_seen : List Moment → WaitResult
  failed : ℕ → List Moment → WaitResult
  waiting : WaitResult

unfoldable pub wait_for_event_flag : List Moment → WaitResult
wait_for_event_flag [] = waiting
wait_for_event_flag (value v ∷ ms) =
    let later = wait_for_event_flag ms in if v == 0 then set_seen ms else later
wait_for_event_flag (semop_error e ∷ ms) =
    let again = wait_for_event_flag ms in if e == eintr then again else failed e ms

-- semctl() with SETVAL: the return value and the semaphore's value after it.
abbrev pub setval : Bool → ℕ → ℕ → ℤ × ℕ
setval ok v arg = if ok then (pos 0, arg) else (minus_one, v)

unfoldable pub clear_event_flag : Bool → ℕ → ℤ × ℕ
clear_event_flag ok v = setval ok v 1

unfoldable pub set_event_flag : Bool → ℕ → ℤ × ℕ
set_event_flag ok v = setval ok v 0

-- The return value, with `*isSet` where it is written.
unfoldable pub get_flag_state : Bool → ℕ → ℤ × Option Bool
get_flag_state ok v =
    if ok then (pos 0, some (if v == 0 then true else false)) else (minus_one, none)
