-- ===== src/Inotify/Loop.antt =====
-- processInotifyEvents() of inotify_dtree.c: one read() from the inotify descriptor, the loop over the
-- events, and the secondary read() where the buffer ends with an IN_MOVED_FROM.
pub mod Ends
use linux_programming_interf.Common.{
  ℕ, zero, suc, ◌+◌, ◌-◌, Bool, true, false, Option, none, some, List, [], ◌∷◌, ◌++◌, ◌==◌,
  if◌then◌else◌,
}
use linux_programming_interf.Common.Int.{ℤ}
use linux_programming_interf.Inotify.Run.{
  Run, ok, exit_success, exit_failure, aborted, undefined, ◌>>=◌,
}
use linux_programming_interf.Inotify.Kernel.{Os, Event, ReadResult, got, end_of_file, read_failed}
use linux_programming_interf.Inotify.Tree.{Monitor}
use linux_programming_interf.Inotify.Event.{Processed, event_len, process_next_inotify_event}

abbrev pub eintr : ℕ
eintr = 4

abbrev pub bytes_of : List Event → ℕ
bytes_of [] = 0
bytes_of (ev ∷ evs) = event_len ev + bytes_of evs

-- The events from `evp + n` on.
pub drop_bytes : ℕ → List Event → List Event
drop_bytes n [] = []
drop_bytes n (ev ∷ evs) =
    let rest = drop_bytes (n - event_len ev) evs in if n == 0 then ev ∷ evs else rest

-- What the loop keeps: `*inotifyFd`, the events from `evp` on, the number of bytes from `evp` to
-- `buf + numRead`, and `firstTry`.
pub record Buffer (K : Type 0) : Type 0 where
  pub fd : ℤ
  pub monitor : Monitor K
  pub events : List Event
  pub size : ℕ
  pub first_try : Bool

-- The end of the program ends the loop too.
unfoldable pub go_on : {A B : Type 0} → Run A → (A → Option (Run B)) → Option (Run B)
go_on (ok a) next = next a
go_on exit_success next = some exit_success
go_on exit_failure next = some exit_failure
go_on aborted next = some aborted
go_on undefined next = some undefined

module _ {K : Type 0} (os : Os K) where
  -- The secondary read(). After the timeout `nr` is -1, and it is added to `numRead` all the same,
  -- since the test there is of `errno`, which is never -1.
  pub read_more : Buffer K → ReadResult → Run (Buffer K)
  read_more b (got evs) = ok (record b { events = b.events ++ evs; size = b.size + bytes_of evs })
  read_more b end_of_file = exit_failure
  read_more b (read_failed errno) =
      if errno == eintr then ok (record b { size = b.size - 1 }) else exit_failure

  -- The two branches on `evLen > 0`.
  pub after_event : Buffer K → Processed K → Run (Buffer K)
  unfolding read_more drop_bytes
  after_event b p = elim p.advance [
    | some n ↦ ok (record {
      fd = p.fd;
      monitor = p.monitor;
      events = drop_bytes n b.events;
      size = b.size - n;
      first_try = true;
    })
    | none ↦
        let (answer, k) = os.read p.monitor.os p.fd in
        let m : Monitor K = p.monitor in
        read_more
          (record b {
            fd = p.fd;
            monitor = record m { os = k; read_cnt = m.read_cnt + 1 };
            first_try = false;
          })
          answer
  ]

  -- One round of the loop.
  pub round : Buffer K → Run (Buffer K)
  unfolding after_event process_next_inotify_event
  round b =
      process_next_inotify_event os b.fd b.monitor b.events b.size b.first_try >>= after_event b

  -- `for (char *evp = buf; evp < buf + numRead; )`, on fuel: `none` means too few rounds.
  pub event_loop : ℕ → Buffer K → Option (Run (ℤ × Monitor K))
  unfolding round go_on
  event_loop zero b = none
  event_loop (suc fuel) b =
      if b.size == 0
      then some (ok (b.fd, b.monitor))
      else go_on (round b) (λ b'. event_loop fuel b')

  -- The first read().
  pub process_read : ℕ → ℤ → Monitor K → ReadResult → Option (Run (ℤ × Monitor K))
  unfolding event_loop
  process_read fuel fd m (read_failed errno) = some exit_failure
  process_read fuel fd m end_of_file = some exit_failure
  process_read fuel fd m (got evs) = event_loop fuel (record {
    fd = fd;
    monitor = record m { read_cnt = m.read_cnt + 1 };
    events = evs;
    size = bytes_of evs;
    first_try = true;
  })

  -- processInotifyEvents()
  unfoldable pub process_inotify_events : ℕ → ℤ → Monitor K → Option (Run (ℤ × Monitor K))
  unfolding process_read
  process_inotify_events fuel fd m =
      let (answer, k) = os.read m.os fd in process_read fuel fd (record m { os = k }) answer
