-- ===== src/Threads/Multijoin/Joins.antt =====
-- The counters and the joins, against the entries of the threads.
use linux_programming_interf.Common.{
  ℕ, ◌+◌, ◌<◌, ◌≡◌, ◌⊎◌, inl, inr, refl, ◌∙◌, some, List, [], ◌∷◌, arith, length, length-append,
  length-set, get_elem?, set,
}
use linux_programming_interf.Common.Steps.{Run, Run-keeps}
use linux_programming_interf.Common.Sums.{sum, sum-append, sum-set}
use linux_programming_interf.Threads.Multijoin.{
  ts_alive, ts_terminated, ts_joined, working, signalling, ended, Entry, Main, creating, testing,
  checking, waiting, woken, scanning, exited, State, state_of, Free, free_creating, free_testing,
  free_waiting, free_woken, free_exited, wake, Step, create, created, terminate, signal, lock,
  leave, sleep, spurious, relock, scan, join, pass, unlock, initial,
}
use linux_programming_interf.Threads.Multijoin.Counts.{
  terminated_1, unjoined_1, alive_1, signalling_1, sum-unjoined,
}

-- `numLive` counts the entries that are not joined.
abbrev Counted : ℕ → List Entry → ℕ → Type 0
Counted total es live = (live ≡ sum unjoined_1 es) × (length es ≡ total)

-- What holds where the main thread is. Asleep, it has a thread to wait for: an ended one that has
-- not signalled yet, unless none has ended.
abbrev pub MainInv : ℕ → List Entry → ℕ → ℕ → Main → Type 0
MainInv total es live unjoined creating = sum unjoined_1 es ≡ length es
MainInv total es live unjoined testing = Counted total es live
MainInv total es live unjoined checking = Counted total es live × (0 < live)
MainInv total es live unjoined waiting =
    Counted total es live × (0 < live) × ((unjoined ≡ 0) ⊎ (0 < sum signalling_1 es))
MainInv total es live unjoined woken = Counted total es live × (0 < live)
MainInv total es live unjoined (scanning idx) = Counted total es live
MainInv total es live unjoined exited = Counted total es live × (live ≡ 0)

abbrev pub Inv : ℕ → State → Type 0
Inv total (state_of es live unjoined m) =
    (unjoined ≡ sum terminated_1 es) × MainInv total es live unjoined m

-- A thread that ends leaves what holds for the main thread.
terminate-MainInv :
    (total live unjoined : ℕ) (es fs : List Entry) (m : Main)
    → Free m
    → length fs ≡ length es
    → sum unjoined_1 fs ≡ sum unjoined_1 es
    → 0 < sum signalling_1 fs
    → MainInv total es live unjoined m
    → MainInv total fs live (unjoined + 1) m
terminate-MainInv total live unjoined es fs _ free_creating len same more h = omega (arith, h)
terminate-MainInv total live unjoined es fs _ free_testing len same more (h, k) =
    (omega (arith, h), omega (arith, k))
terminate-MainInv total live unjoined es fs _ free_waiting len same more ((h, k), pos, w) =
    ((omega (arith, h), omega (arith, k)), pos, inr more)
terminate-MainInv total live unjoined es fs _ free_woken len same more ((h, k), pos) =
    ((omega (arith, h), omega (arith, k)), pos)
terminate-MainInv total live unjoined es fs _ free_exited len same more ((h, k), none_left) =
    ((omega (arith, h), omega (arith, k)), none_left)

-- So does a signal, the main thread woken.
wake-MainInv :
    (total live unjoined : ℕ) (es fs : List Entry) (m : Main)
    → length fs ≡ length es
    → sum unjoined_1 fs ≡ sum unjoined_1 es
    → MainInv total es live unjoined m
    → MainInv total fs live unjoined (wake m)
wake-MainInv total live unjoined es fs creating len same h = omega (arith, h)
wake-MainInv total live unjoined es fs testing len same (h, k) =
    (omega (arith, h), omega (arith, k))
wake-MainInv total live unjoined es fs checking len same ((h, k), pos) =
    ((omega (arith, h), omega (arith, k)), pos)
wake-MainInv total live unjoined es fs waiting len same ((h, k), pos, w) =
    ((omega (arith, h), omega (arith, k)), pos)
wake-MainInv total live unjoined es fs woken len same ((h, k), pos) =
    ((omega (arith, h), omega (arith, k)), pos)
wake-MainInv total live unjoined es fs (scanning idx) len same (h, k) =
    (omega (arith, h), omega (arith, k))
wake-MainInv total live unjoined es fs exited len same ((h, k), none_left) =
    ((omega (arith, h), omega (arith, k)), none_left)

Step-Inv : (total : ℕ) (s t : State) → Step total s t → Inv total s → Inv total t
Step-Inv total _ _ (create {es = es} room) (u, h) =
    let e : Entry = record { state = ts_alive; phase = working } in
    (
      omega (arith, u, sum-append terminated_1 es e),
      omega (arith, h, sum-append unjoined_1 es e, length-append es (e ∷ [])),
    )
Step-Inv total _ _ (created {es = es} all) (u, h) = (u, (omega (arith, h, all), all))
Step-Inv total _ _ (terminate {live = live} {unjoined = unjoined} {es = es} {m = m} idx f at)
      (u, h) =
    let e : Entry = record { state = ts_alive; phase = working } in
    let v : Entry = record { state = ts_terminated; phase = signalling } in
    (
      omega (arith, u, sum-set terminated_1 es idx e v at),
      terminate-MainInv total live unjoined es (set es idx v) m f (length-set es idx v)
          (omega (arith, sum-set unjoined_1 es idx e v at))
          (omega (arith, sum-set signalling_1 es idx e v at)) h,
    )
Step-Inv total _ _ (signal {live = live} {unjoined = unjoined} {es = es} {m = m} idx st at) (u, h) =
    let e : Entry = record { state = st; phase = signalling } in
    let v : Entry = record { state = st; phase = ended } in
    (
      omega (arith, u, sum-set terminated_1 es idx e v at),
      wake-MainInv total live unjoined es (set es idx v) m (length-set es idx v)
          (omega (arith, sum-set unjoined_1 es idx e v at)) h,
    )
Step-Inv total _ _ (lock pos) (u, h) = (u, (h, pos))
Step-Inv total _ _ (leave z) (u, h) = (u, (h, z))
Step-Inv total _ _ (sleep z) (u, (h, pos)) = (u, (h, pos, inl z))
Step-Inv total _ _ spurious (u, (h, pos, w)) = (u, (h, pos))
Step-Inv total _ _ relock (u, h) = (u, h)
Step-Inv total _ _ (scan nz) (u, (h, pos)) = (u, h)
Step-Inv total _ _ (join {es = es} idx at) (u, (h, k)) =
    let e : Entry = record { state = ts_terminated; phase = ended } in
    let v : Entry = record { state = ts_joined; phase = ended } in
    (
      omega (arith, u, sum-set terminated_1 es idx e v at),
      (omega (arith, h, sum-set unjoined_1 es idx e v at), length-set es idx v ∙ k),
    )
Step-Inv total _ _ (pass idx e at other) (u, h) = (u, h)
Step-Inv total _ _ (unlock last) (u, h) = (u, h)

-- Every state that the program reaches has counters that count the entries, and the rest of `Inv`.
reached-Inv : (total : ℕ) (s : State) → Run (Step total) initial s → Inv total s
reached-Inv total s run =
    Run-keeps (Step total) (λ t. Inv total t) (λ t u h step. Step-Inv total t u step h) initial s
      (refl, refl) run

-- thread_multijoin: in any reachable state in which the main thread is about to join with the
-- terminated thread of an entry, numLive and numUnjoined are positive, so that neither goes below 0.
pub join_counted :
    (total live unjoined idx : ℕ) (es : List Entry)
    → Run (Step total) initial (state_of es live unjoined (scanning idx))
    → get_elem? es idx ≡ some (record { state = ts_terminated; phase = ended })
    → (0 < live) × (0 < unjoined)
join_counted total live unjoined idx es run at =
    let (u, (h, k)) = reached-Inv total _ run in
    let e : Entry = record { state = ts_terminated; phase = ended } in
    let v : Entry = record { state = ts_joined; phase = ended } in
    (
      omega (arith, h, sum-set unjoined_1 es idx e v at),
      omega (arith, u, sum-set terminated_1 es idx e v at),
    )

-- thread_multijoin: when the main thread has left its loop, in whatever order its threads ended and
-- signalled, it has created all of them and joined with each one: none is alive, none is terminated
-- without being joined, and numUnjoined is 0.
pub exited-joined :
    (total live unjoined : ℕ) (es : List Entry)
    → Run (Step total) initial (state_of es live unjoined exited)
    → (length es ≡ total) × (sum alive_1 es ≡ 0) × (sum terminated_1 es ≡ 0) × (unjoined ≡ 0)
exited-joined total live unjoined es run =
    let (u, ((h, k), z)) = reached-Inv total _ run in
    (
      k,
      omega (arith, h, z, sum-unjoined es),
      omega (arith, h, z, sum-unjoined es),
      omega (arith, u, h, z, sum-unjoined es),
    )

-- thread_multijoin: no wake-up is lost. While the main thread sleeps in pthread_cond_wait(), a
-- thread is alive, or one has ended and is still to signal.
pub waiting-awaited :
    (total live unjoined : ℕ) (es : List Entry)
    → Run (Step total) initial (state_of es live unjoined waiting)
    → 0 < sum alive_1 es + sum signalling_1 es
waiting-awaited total live unjoined es run =
    let (u, ((h, k), pos, w)) = reached-Inv total _ run in
    elim w [ inl z ↦ omega (arith, u, h, pos, z, sum-unjoined es) | inr more ↦ omega (arith, more) ]
