-- ===== src/Threads/ProdCondvar.antt =====
-- book-src/threads/prod_condvar.c: threads that produce units and the main thread that consumes them.
-- A thread's argument is not negative.
pub mod Units
mod Tests
use linux_programming_interf.Common.{
  ℕ, suc, ◌+◌, ◌-◌, ◌<◌, ◌≡◌, ◌≢◌, Bool, true, false, Option, some, List, [], ◌∷◌, ◌++◌, get_elem?,
  set, leb,
}

-- Where a producer is: at the top of its loop, or between unlocking and pthread_cond_signal().
pub data Phase : Type 0 where
  looping : Phase
  signalling : Phase

-- A producer, with the rounds that it has left.
pub record Producer : Type 0 where
  pub left : ℕ
  pub phase : Phase

-- Where the main thread is: creating threads, with the arguments that are left; at the top of the
-- loop; at `while (avail == 0)` with the mutex; in pthread_cond_wait(), asleep or woken; at
-- `while (avail > 0)`; at `if (done)`, without the mutex; past the loop.
pub data Main : Type 0 where
  creating : List ℕ → Main
  locking : Main
  checking : Main
  waiting : Main
  woken : Main
  consuming : Main
  testing : Main
  exited : Main

-- The producers, `avail`, `totRequired`, `numConsumed`, `done` and the main thread.
pub data State : Type 0 where
  state_of : List Producer → ℕ → ℕ → ℕ → Bool → Main → State

-- The main thread does not have `mtx`.
pub data Free : Main → Type 0 where
  free_creating : {args : List ℕ} → Free (creating args)
  free_locking : Free locking
  free_waiting : Free waiting
  free_woken : Free woken
  free_testing : Free testing
  free_exited : Free exited

-- pthread_cond_signal() wakes the main thread if it sleeps.
abbrev pub wake : Main → Main
wake (creating args) = creating args
wake locking = locking
wake checking = checking
wake waiting = woken
wake woken = woken
wake consuming = consuming
wake testing = testing
wake exited = exited

pub data Step : State → State → Type 0 where
  create :
      {avail tot consumed cnt : ℕ} {done : Bool} {ps : List Producer} {args : List ℕ}
      → Step (state_of ps avail tot consumed done (creating (cnt ∷ args))) (
          state_of
            (ps ++ record { left = cnt; phase = looping } ∷ [])
            avail
            (tot + cnt)
            consumed
            done
            (creating args))
  created :
      {avail tot consumed : ℕ} {done : Bool} {ps : List Producer}
      → Step
          (state_of ps avail tot consumed done (creating []))
          (state_of ps avail tot 0 false locking)
  produce :
      {avail tot consumed : ℕ} {done : Bool} {ps : List Producer} {m : Main} (j left : ℕ)
      → Free m
      → get_elem? ps j ≡ some (record { left = suc left; phase = looping })
      → Step (state_of ps avail tot consumed done m) (
          state_of
            (set ps j (record { left = left; phase = signalling }))
            (avail + 1)
            tot
            consumed
            done
            m)
  signal :
      {avail tot consumed : ℕ} {done : Bool} {ps : List Producer} {m : Main} (j left : ℕ)
      → get_elem? ps j ≡ some (record { left = left; phase = signalling })
      → Step (state_of ps avail tot consumed done m) (
          state_of
            (set ps j (record { left = left; phase = looping }))
            avail
            tot
            consumed
            done
            (wake m))
  lock :
      {avail tot consumed : ℕ} {done : Bool} {ps : List Producer}
      → Step
          (state_of ps avail tot consumed done locking)
          (state_of ps avail tot consumed done checking)
  sleep :
      {avail tot consumed : ℕ} {done : Bool} {ps : List Producer}
      → avail ≡ 0
      → Step
          (state_of ps avail tot consumed done checking)
          (state_of ps avail tot consumed done waiting)
  spurious :
      {avail tot consumed : ℕ} {done : Bool} {ps : List Producer}
      → Step
          (state_of ps avail tot consumed done waiting)
          (state_of ps avail tot consumed done woken)
  relock :
      {avail tot consumed : ℕ} {done : Bool} {ps : List Producer}
      → Step
          (state_of ps avail tot consumed done woken)
          (state_of ps avail tot consumed done checking)
  proceed :
      {avail tot consumed : ℕ} {done : Bool} {ps : List Producer}
      → avail ≢ 0
      → Step
          (state_of ps avail tot consumed done checking)
          (state_of ps avail tot consumed done consuming)
  consume :
      {avail tot consumed : ℕ} {done : Bool} {ps : List Producer}
      → 0 < avail
      → Step
          (state_of ps avail tot consumed done consuming)
          (state_of ps (avail - 1) tot (consumed + 1) (leb tot (consumed + 1)) consuming)
  unlock :
      {avail tot consumed : ℕ} {done : Bool} {ps : List Producer}
      → avail ≡ 0
      → Step
          (state_of ps avail tot consumed done consuming)
          (state_of ps avail tot consumed done testing)
  again :
      {avail tot consumed : ℕ} {ps : List Producer}
      → Step
          (state_of ps avail tot consumed false testing)
          (state_of ps avail tot consumed false locking)
  leave :
      {avail tot consumed : ℕ} {ps : List Producer}
      → Step
          (state_of ps avail tot consumed true testing)
          (state_of ps avail tot consumed true exited)

abbrev pub initial : List ℕ → State
initial args = state_of [] 0 0 0 false (creating args)
