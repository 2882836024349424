-- ===== src/Threads/OneTime.antt =====
-- book-src/threads/one_time_init.c: one_time_init(), called by any number of threads, each any number
-- of times; the program has two threads with two calls each. Locking, the call of `init`, the
-- assignment and unlocking are steps of their own.
pub mod Once
pub mod Progress
mod Tests
use linux_programming_interf.Common.{
  ℕ, suc, ◌+◌, ◌≡◌, Bool, true, false, some, List, map, get_elem?, set,
}

-- Where a thread is, with the calls that it makes afterwards: outside; before the test of `called`;
-- with `init` returned; before the mutex is unlocked.
pub data Phase : Type 0 where
  outside : ℕ → Phase
  entered : ℕ → Phase
  initialised : ℕ → Phase
  leaving : ℕ → Phase

-- The threads, whether `mtx` is locked, `called`, how often `init` was called, and how many calls of
-- one_time_init() have returned.
pub data State : Type 0 where
  state_of : List Phase → Bool → Bool → ℕ → ℕ → State

pub data Step : State → State → Type 0 where
  lock :
      {ts : List Phase} {called : Bool} {inits returned : ℕ} (idx calls : ℕ)
      → get_elem? ts idx ≡ some (outside (suc calls))
      → Step
          (state_of ts false called inits returned)
          (state_of (set ts idx (entered calls)) true called inits returned)
  initialise :
      {ts : List Phase} {locked : Bool} {inits returned : ℕ} (idx calls : ℕ)
      → get_elem? ts idx ≡ some (entered calls)
      → Step
          (state_of ts locked false inits returned)
          (state_of (set ts idx (initialised calls)) locked false (inits + 1) returned)
  mark :
      {ts : List Phase} {locked called : Bool} {inits returned : ℕ} (idx calls : ℕ)
      → get_elem? ts idx ≡ some (initialised calls)
      → Step
          (state_of ts locked called inits returned)
          (state_of (set ts idx (leaving calls)) locked true inits returned)
  skip :
      {ts : List Phase} {locked : Bool} {inits returned : ℕ} (idx calls : ℕ)
      → get_elem? ts idx ≡ some (entered calls)
      → Step
          (state_of ts locked true inits returned)
          (state_of (set ts idx (leaving calls)) locked true inits returned)
  unlock :
      {ts : List Phase} {locked called : Bool} {inits returned : ℕ} (idx calls : ℕ)
      → get_elem? ts idx ≡ some (leaving calls)
      → Step
          (state_of ts locked called inits returned)
          (state_of (set ts idx (outside calls)) false called inits (returned + 1))

-- ONCE_INITIALIZER, and threads that are to make so many calls.
abbrev pub initial : List ℕ → State
initial calls = state_of (map outside calls) false false 0 0
