-- ===== src/Threads/Multijoin/Tests.antt =====
-- A run of thread_multijoin with one thread, and the theorems at its states.
use linux_programming_interf.Common.{◌+◌, ◌<◌, ◌≡◌, refl, List, [], ◌∷◌, arith, length}
use linux_programming_interf.Common.Sums.{sum}
use linux_programming_interf.Common.Steps.{Run, start, then}
use linux_programming_interf.Threads.Multijoin.{
  ts_alive, ts_terminated, ts_joined, working, ended, Entry, waiting, scanning, exited, state_of,
  Step, free_waiting, create, created, terminate, signal, lock, leave, sleep, relock, scan, join,
  unlock, initial,
}
use linux_programming_interf.Threads.Multijoin.Counts.{terminated_1, alive_1, signalling_1}
use linux_programming_interf.Threads.Multijoin.Joins.{exited-joined, waiting-awaited}

abbrev alive : List Entry
alive = record { state = ts_alive; phase = working } ∷ []

abbrev done : List Entry
done = record { state = ts_terminated; phase = ended } ∷ []

abbrev joined : List Entry
joined = record { state = ts_joined; phase = ended } ∷ []

asleep : Run (Step 1) initial (state_of alive 1 0 waiting)
asleep =
    then (then (then (then start (create (omega arith))) (created refl)) (lock (omega arith)))
      (sleep refl)

at_entry : Run (Step 1) initial (state_of done 1 1 (scanning 0))
at_entry =
    then
      (then (then (then asleep (terminate 0 free_waiting refl)) (signal 0 ts_terminated refl))
        relock)
      (scan (λ e. omega (arith, e)))

all_joined : Run (Step 1) initial (state_of joined 0 0 exited)
all_joined = then (then (then at_entry (join 0 refl)) (unlock refl)) (leave refl)

exited-joined_example :
    (length joined ≡ 1)
    × (sum alive_1 joined ≡ 0)
    × (sum terminated_1 joined ≡ 0)
    × (sum terminated_1 [] ≡ 0)
exited-joined_example = exited-joined 1 0 0 joined all_joined

waiting-awaited_example : 0 < sum alive_1 alive + sum signalling_1 alive
waiting-awaited_example = waiting-awaited 1 1 0 alive asleep
