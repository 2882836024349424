-- ===== src/Threads/Multijoin.antt =====
-- book-src/threads/thread_multijoin.c: the main thread joins with its threads in the order in which
-- they end. `total` is `argc - 1`.
pub mod Counts
pub mod Joins
mod Tests
use linux_programming_interf.Common.{
  ℕ, ◌+◌, ◌-◌, ◌<◌, ◌≡◌, ◌≢◌, Option, none, some, List, [], ◌∷◌, ◌++◌, length, get_elem?, set,
}

pub data Tstate : Type 0 where
  ts_alive : Tstate
  ts_terminated : Tstate
  ts_joined : Tstate

-- Where a thread is in `threadFunc`: before its section under the mutex, between that and
-- pthread_cond_signal(), and past it.
pub data Phase : Type 0 where
  working : Phase
  signalling : Phase
  ended : Phase

-- An entry of `thread` with the place its thread is at.
pub record Entry : Type 0 where
  pub state : Tstate
  pub phase : Phase

-- Where the main thread is: in the loop that creates the threads; at `while (numLive > 0)`; at
-- `while (numUnjoined == 0)` with the mutex; in pthread_cond_wait(), still asleep or woken and
-- without the mutex; at an index of the loop over the entries, with the mutex; past the loops.
pub data Main : Type 0 where
  creating : Main
  testing : Main
  checking : Main
  waiting : Main
  woken : Main
  scanning : ℕ → Main
  exited : Main

-- `thread` (the entries in use), `numLive`, `numUnjoined` and the main thread.
pub data State : Type 0 where
  state_of : List Entry → ℕ → ℕ → Main → State

-- The main thread has `threadMutex`.
pub data Free : Main → Type 0 where
  free_creating : Free creating
  free_testing : Free testing
  free_waiting : Free waiting
  free_woken : Free woken
  free_exited : Free exited

-- pthread_cond_signal() wakes the main thread if it sleeps.
abbrev pub wake : Main → Main
wake creating = creating
wake testing = testing
wake checking = checking
wake waiting = woken
wake woken = woken
wake (scanning idx) = scanning idx
wake exited = exited

pub data Step : ℕ → State → State → Type 0 where
  create :
      {total live unjoined : ℕ} {es : List Entry}
      → length es < total
      → Step total (state_of es live unjoined creating) (
          state_of (es ++ record { state = ts_alive; phase = working } ∷ []) live unjoined creating)
  created :
      {total live unjoined : ℕ} {es : List Entry}
      → length es ≡ total
      → Step total (state_of es live unjoined creating) (state_of es total unjoined testing)
  terminate :
      {total live unjoined : ℕ} {es : List Entry} {m : Main} (idx : ℕ)
      → Free m
      → get_elem? es idx ≡ some (record { state = ts_alive; phase = working })
      → Step total (state_of es live unjoined m) (
          state_of
            (set es idx (record { state = ts_terminated; phase = signalling }))
            live
            (unjoined + 1)
            m)
  signal :
      {total live unjoined : ℕ} {es : List Entry} {m : Main} (idx : ℕ) (st : Tstate)
      → get_elem? es idx ≡ some (record { state = st; phase = signalling })
      → Step total
          (state_of es live unjoined m)
          (state_of (set es idx (record { state = st; phase = ended })) live unjoined (wake m))
  lock :
      {total live unjoined : ℕ} {es : List Entry}
      → 0 < live
      → Step total (state_of es live unjoined testing) (state_of es live unjoined checking)
  leave :
      {total live unjoined : ℕ} {es : List Entry}
      → live ≡ 0
      → Step total (state_of es live unjoined testing) (state_of es live unjoined exited)
  sleep :
      {total live unjoined : ℕ} {es : List Entry}
      → unjoined ≡ 0
      → Step total (state_of es live unjoined checking) (state_of es live unjoined waiting)
  spurious :
      {total live unjoined : ℕ} {es : List Entry}
      → Step total (state_of es live unjoined waiting) (state_of es live unjoined woken)
  relock :
      {total live unjoined : ℕ} {es : List Entry}
      → Step total (state_of es live unjoined woken) (state_of es live unjoined checking)
  scan :
      {total live unjoined : ℕ} {es : List Entry}
      → unjoined ≢ 0
      → Step total (state_of es live unjoined checking) (state_of es live unjoined (scanning 0))
  join :
      {total live unjoined : ℕ} {es : List Entry} (idx : ℕ)
      → get_elem? es idx ≡ some (record { state = ts_terminated; phase = ended })
      → Step total (state_of es live unjoined (scanning idx)) (
          state_of
            (set es idx (record { state = ts_joined; phase = ended }))
            (live - 1)
            (unjoined - 1)
            (scanning (idx + 1)))
  pass :
      {total live unjoined : ℕ} {es : List Entry} (idx : ℕ) (e : Entry)
      → get_elem? es idx ≡ some e
      → e.state ≢ ts_terminated
      → Step total
          (state_of es live unjoined (scanning idx))
          (state_of es live unjoined (scanning (idx + 1)))
  unlock :
      {total live unjoined idx : ℕ} {es : List Entry}
      → idx ≡ total
      → Step total (state_of es live unjoined (scanning idx)) (state_of es live unjoined testing)

-- Before the first thread is created.
abbrev pub initial : State
initial = state_of [] 0 0 creating
