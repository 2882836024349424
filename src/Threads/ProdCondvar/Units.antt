-- ===== src/Threads/ProdCondvar/Units.antt =====
-- The units, from their production to their consumption, and the wake-ups.
use linux_programming_interf.Common.{
  ℕ, suc, ◌+◌, ◌<◌, ◌≤◌, ◌≡◌, ◌≢◌, ◌⊎◌, inl, inr, refl, Bool, List, arith, set, leb,
}
use linux_programming_interf.Common.Steps.{Run, Run-keeps}
use linux_programming_interf.Common.Sums.{sum, sum-append, sum-set}
use linux_programming_interf.Threads.ProdCondvar.{
  Phase, looping, signalling, Producer, Main, creating, locking, checking, waiting, woken,
  consuming, testing, exited, State, state_of, Free, free_creating, free_locking, free_waiting,
  free_woken, free_testing, free_exited, wake, Step, create, created, produce, signal, lock, sleep,
  spurious, relock, proceed, consume, unlock, again, leave, initial,
}

abbrev pub left_of : Producer → ℕ
left_of p = p.left

abbrev is_signalling : Phase → ℕ
is_signalling looping = 0
is_signalling signalling = 1

abbrev pub signalling_of : Producer → ℕ
signalling_of p = is_signalling p.phase

abbrev Unfinished : ℕ → ℕ → Type 0
Unfinished tot consumed = (consumed < tot) ⊎ (consumed ≡ 0)

-- What holds where the main thread is.
abbrev MainInv : List Producer → ℕ → ℕ → ℕ → Bool → Main → Type 0
MainInv ps avail tot consumed done (creating args) = consumed ≡ 0
MainInv ps avail tot consumed done locking = Unfinished tot consumed
MainInv ps avail tot consumed done checking = Unfinished tot consumed
MainInv ps avail tot consumed done waiting =
    Unfinished tot consumed × ((avail ≡ 0) ⊎ (0 < sum signalling_of ps))
MainInv ps avail tot consumed done woken = Unfinished tot consumed
MainInv ps avail tot consumed done consuming = (0 < avail) ⊎ (done ≡ leb tot consumed)
MainInv ps avail tot consumed done testing = done ≡ leb tot consumed
MainInv ps avail tot consumed done exited = tot ≤ consumed

-- Every unit asked for is consumed, available or still to be produced.
abbrev Inv : State → Type 0
Inv (state_of ps avail tot consumed done m) =
    (consumed + avail + sum left_of ps ≡ tot) × MainInv ps avail tot consumed done m

produce-MainInv :
    (ps qs : List Producer) (avail tot consumed : ℕ) (done : Bool) (m : Main)
    → Free m
    → 0 < sum signalling_of qs
    → MainInv ps avail tot consumed done m
    → MainInv qs (avail + 1) tot consumed done m
produce-MainInv ps qs avail tot consumed done _ free_creating more h = h
produce-MainInv ps qs avail tot consumed done _ free_locking more h = h
produce-MainInv ps qs avail tot consumed done _ free_waiting more (h, w) = (h, inr more)
produce-MainInv ps qs avail tot consumed done _ free_woken more h = h
produce-MainInv ps qs avail tot consumed done _ free_testing more h = h
produce-MainInv ps qs avail tot consumed done _ free_exited more h = h

wake-MainInv :
    (ps qs : List Producer) (avail tot consumed : ℕ) (done : Bool) (m : Main)
    → MainInv ps avail tot consumed done m
    → MainInv qs avail tot consumed done (wake m)
wake-MainInv ps qs avail tot consumed done (creating args) h = h
wake-MainInv ps qs avail tot consumed done locking h = h
wake-MainInv ps qs avail tot consumed done checking h = h
wake-MainInv ps qs avail tot consumed done waiting (h, w) = h
wake-MainInv ps qs avail tot consumed done woken h = h
wake-MainInv ps qs avail tot consumed done consuming h = h
wake-MainInv ps qs avail tot consumed done testing h = h
wake-MainInv ps qs avail tot consumed done exited h = h

testing-done : (avail : ℕ) (P : Type 0) → (0 < avail) ⊎ P → avail ≡ 0 → P
testing-done avail P (inl some_left) z = elim (let f : ⊥ = omega (arith, some_left, z) in f) [ ]
testing-done avail P (inr p) z = p

Step-Inv : (s t : State) → Step s t → Inv s → Inv t
Step-Inv _ _ (create {cnt = cnt} {ps = ps}) (e, h) =
    (omega (arith, e, sum-append left_of ps (record { left = cnt; phase = looping })), h)
Step-Inv _ _ created (e, h) = (omega (arith, e, h), inr refl)
Step-Inv _ _
      (produce {avail = avail} {tot = tot} {consumed = consumed} {done = done} {ps = ps} {m = m} j
        left f at)
      (e, h) =
    let p : Producer = record { left = suc left; phase = looping } in
    let v : Producer = record { left = left; phase = signalling } in
    (
      omega (arith, e, sum-set left_of ps j p v at),
      produce-MainInv ps (set ps j v) avail tot consumed done m f
          (omega (arith, sum-set signalling_of ps j p v at)) h,
    )
Step-Inv _ _
      (signal {avail = avail} {tot = tot} {consumed = consumed} {done = done} {ps = ps} {m = m} j
        left at)
      (e, h) =
    let p : Producer = record { left = left; phase = signalling } in
    let v : Producer = record { left = left; phase = looping } in
    (
      omega (arith, e, sum-set left_of ps j p v at),
      wake-MainInv ps (set ps j v) avail tot consumed done m h,
    )
Step-Inv _ _ lock (e, h) = (e, h)
Step-Inv _ _ (sleep z) (e, h) = (e, (h, inl z))
Step-Inv _ _ spurious (e, (h, w)) = (e, h)
Step-Inv _ _ relock (e, h) = (e, h)
Step-Inv _ _ (proceed nz) (e, h) = (e, inl (ground (arith, nz)))
Step-Inv _ _ (consume pos) (e, h) = (omega (arith, e, pos), inr refl)
Step-Inv _ _ (unlock {avail = avail} {tot = tot} {consumed = consumed} {done = done} z) (e, h) =
    (e, testing-done avail (done ≡ leb tot consumed) h z)
Step-Inv _ _ (again {tot = tot} {consumed = consumed}) (e, h) = (e, inl (ground (arith, h)))
Step-Inv _ _ leave (e, h) = (e, ground (arith, h))

reached-Inv : (args : List ℕ) (s : State) → Run Step (initial args) s → Inv s
reached-Inv args s run =
    Run-keeps Step Inv (λ t u h step. Step-Inv t u step h) (initial args) s (refl, refl) run

-- prod_condvar: when the main thread has left its loop, in whatever order the threads ran, it has
-- consumed exactly totRequired units: none is available or still to be produced.
pub exited-consumed :
    (args : List ℕ) (ps : List Producer) (avail tot consumed : ℕ) (done : Bool)
    → Run Step (initial args) (state_of ps avail tot consumed done exited)
    → (consumed ≡ tot) × (avail ≡ 0) × (sum left_of ps ≡ 0)
exited-consumed args ps avail tot consumed done run =
    let (e, h) = reached-Inv args _ run in
    (omega (arith, e, h), omega (arith, e, h), omega (arith, e, h))

-- prod_condvar: no wake-up is lost. While the main thread sleeps in pthread_cond_wait() and any unit
-- is asked for, a producer has a unit to produce or is still to signal.
pub waiting-produced :
    (args : List ℕ) (ps : List Producer) (avail tot consumed : ℕ) (done : Bool)
    → Run Step (initial args) (state_of ps avail tot consumed done waiting)
    → tot ≢ 0
    → 0 < sum left_of ps + sum signalling_of ps
waiting-produced args ps avail tot consumed done run asked =
    let (e, (h, w)) = reached-Inv args _ run in ground (arith, e, h, w, asked)
