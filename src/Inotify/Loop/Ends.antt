-- ===== src/Inotify/Loop/Ends.antt =====
-- The loop of processInotifyEvents(): the cache's invariant, and the rounds that it takes.
use mathlib.Core.Path.{subst}
use linux_programming_interf.Common.{
  ℕ, zero, suc, ◌+◌, ◌*◌, ◌<◌, ◌≡◌, refl, Option, none, some, List, ◌==◌, arith, inl, inr,
  Bool-cases, if◌then◌else◌,
}
use linux_programming_interf.Common.Int.{ℤ}
use linux_programming_interf.Inotify.Run.{
  Run, ok, exit_success, exit_failure, aborted, undefined, Holds, holds, succeeds, fails, aborts,
  strays, Holds-bind, Holds-if,
}
use linux_programming_interf.Inotify.Kernel.{Os, Event, ReadResult, got, end_of_file, read_failed}
use linux_programming_interf.Inotify.Tree.{Monitor}
use linux_programming_interf.Inotify.Tree.Keep.{IsKept}
use linux_programming_interf.Inotify.Event.Keep.{process_next_inotify_event-IsKept}
use linux_programming_interf.Inotify.Event.Advance.{Progress, process_next_inotify_event-Progress}
use linux_programming_interf.Inotify.Loop.{
  eintr, bytes_of, Buffer, read_more, go_on, after_event, round, event_loop, process_read,
  process_inotify_events,
}

Holds-some : {A : Type 0} {P : A → Type 0} {r s : Run A} → Holds P r → some r ≡ some s → Holds P s
Holds-some {P} h e = subst (Holds P) (cc) h

-- What holds of the values of all rounds holds of the loop's.
go_on-Holds :
    {A B : Type 0} {P : A → Type 0} {Q : B → Type 0} {m : Run A} {next : A → Option (Run B)}
    {r : Run B}
    → Holds P m
    → ((a : A) → P a → next a ≡ some r → Holds Q r)
    → go_on m next ≡ some r
    → Holds Q r
unfolding go_on
go_on-Holds (holds p) h e = h _ p e
go_on-Holds succeeds h e = Holds-some succeeds e
go_on-Holds fails h e = Holds-some fails e
go_on-Holds aborts h e = Holds-some aborts e
go_on-Holds strays h e = Holds-some strays e

module _ {K : Type 0} (os : Os K) where
  read_more-IsKept :
      (b : Buffer K) (r : ReadResult)
      → IsKept b.monitor
      → Holds (λ b'. IsKept b'.monitor) (read_more os b r)
  unfolding read_more
  read_more-IsKept b (got evs) d = holds d
  read_more-IsKept b end_of_file d = fails
  read_more-IsKept b (read_failed errno) d = Holds-if (errno == eintr) (holds d) fails

  advanced-IsKept :
      (b : Buffer K) (o : Option ℕ) (fd : ℤ) (m : Monitor K)
      → IsKept m
      → Holds
          (λ b'. IsKept b'.monitor)
          (after_event os b (record { advance = o; fd = fd; monitor = m }))
  unfolding after_event
  advanced-IsKept b (some n) fd m d = holds d
  advanced-IsKept b none fd m d = read_more-IsKept _ (os.read m.os fd).0 d

  round-IsKept : (b : Buffer K) → IsKept b.monitor → Holds (λ b'. IsKept b'.monitor) (round os b)
  unfolding round
  round-IsKept b d =
      Holds-bind (process_next_inotify_event-IsKept os b.fd b.monitor b.events b.size b.first_try d)
        λ p k. advanced-IsKept b p.advance p.fd p.monitor k

  event_loop-IsKept :
      (fuel : ℕ) (b : Buffer K) {r : Run (ℤ × Monitor K)}
      → IsKept b.monitor
      → event_loop os fuel b ≡ some r
      → Holds (λ v. IsKept v.1) r
  unfolding event_loop
  event_loop-IsKept zero b d e = cc
  event_loop-IsKept (suc fuel) b d e = elim (Bool-cases (b.size == 0)) [
    | inl done ↦ Holds-some (holds d) (rw done at e)
    | inr more ↦
        go_on-Holds (round-IsKept b d) (λ b' d' e'. event_loop-IsKept fuel b' d' e') (rw more at e)
  ]

  process_read-IsKept :
      (fuel : ℕ) (fd : ℤ) (m : Monitor K) (a : ReadResult) {r : Run (ℤ × Monitor K)}
      → IsKept m
      → process_read os fuel fd m a ≡ some r
      → Holds (λ v. IsKept v.1) r
  unfolding process_read
  process_read-IsKept fuel fd m (read_failed errno) d e = Holds-some fails e
  process_read-IsKept fuel fd m end_of_file d e = Holds-some fails e
  process_read-IsKept fuel fd m (got evs) d e = event_loop-IsKept fuel _ d e

  -- processInotifyEvents() keeps the cache free of a descriptor in two slots, over any number of
  -- events and secondary reads.
  pub process_inotify_events-IsKept :
      (fuel : ℕ) (fd : ℤ) (m : Monitor K) {r : Run (ℤ × Monitor K)}
      → IsKept m
      → process_inotify_events os fuel fd m ≡ some r
      → Holds (λ v. IsKept v.1) r
  unfolding process_inotify_events
  process_inotify_events-IsKept fuel fd m d e = process_read-IsKept fuel fd _ _ d e

-- The rounds that are left: two for each byte, and one more on a first try.
abbrev rounds : {K : Type 0} → Buffer K → ℕ
rounds b = 2 * b.size + (if b.first_try then 1 else 0)

module _ {K : Type 0} (os : Os K)
    (timeout : (k : K) (fd : ℤ) → (os.read k fd).0 ≡ read_failed eintr) where
  after_event-rounds :
      (b : Buffer K) (o : Option ℕ) (fd : ℤ) (m : Monitor K)
      → 0 < b.size
      → Progress b.fd b.monitor b.first_try (record { advance = o; fd = fd; monitor = m })
      → Holds
          (λ b'. rounds b' < rounds b)
          (after_event os b (record { advance = o; fd = fd; monitor = m }))
  unfolding after_event read_more
  after_event-rounds b (some n) fd m h p = holds (ground arith)
  after_event-rounds b none fd m h p = rw (timeout m.os fd) (holds (ground arith))

  round-rounds : (b : Buffer K) → 0 < b.size → Holds (λ b'. rounds b' < rounds b) (round os b)
  unfolding round
  round-rounds b h =
      Holds-bind (process_next_inotify_event-Progress os b.fd b.monitor b.events b.size b.first_try)
        λ p k. after_event-rounds b p.advance p.fd p.monitor h k

  go_on-some :
      {A B : Type 0} {P : A → Type 0} {m : Run A} {next : A → Option (Run B)}
      → Holds P m
      → ((a : A) → P a → (r : Run B) × (next a ≡ some r))
      → (r : Run B) × (go_on m next ≡ some r)
  unfolding go_on
  go_on-some (holds p) h = h _ p
  go_on-some succeeds h = (exit_success, refl)
  go_on-some fails h = (exit_failure, refl)
  go_on-some aborts h = (aborted, refl)
  go_on-some strays h = (undefined, refl)

  event_loop-ends :
      (fuel : ℕ) (b : Buffer K)
      → rounds b < fuel
      → (r : Run (ℤ × Monitor K)) × (event_loop os fuel b ≡ some r)
  unfolding event_loop
  event_loop-ends zero b h = elim h [ ]
  event_loop-ends (suc fuel) b h = elim (Bool-cases (b.size == 0)) [
    | inl done ↦ (ok (b.fd, b.monitor), rw done)
    | inr more ↦
        rw more
          (go_on-some (round-rounds b (ground arith)) λ b' k. event_loop-ends fuel b' (omega arith))
  ]

  -- processInotifyEvents(), after its first read(), ends if every secondary read() times out: two
  -- rounds for each byte of the
  -- first read(), and two more, are enough.
  pub process_read-ends :
      (fd : ℤ) (m : Monitor K) (events : List Event)
      → (fuel : ℕ) → 2 * bytes_of events + 1 < fuel
      → (r : Run (ℤ × Monitor K)) × (process_read os fuel fd m (got events) ≡ some r)
  unfolding process_read
  process_read-ends fd m events fuel h = event_loop-ends fuel _ h
