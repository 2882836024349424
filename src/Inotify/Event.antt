-- ===== src/Inotify/Event.antt =====
-- processNextInotifyEvent() of inotify_dtree.c: one event of the buffer, or a pair of events that
-- make up a rename inside the monitored trees.
pub mod Cases
pub mod Keep
pub mod Advance
pub mod Rename
use Prim.Native.Nat.{bit_and}
use linux_programming_interf.Common.{
  ℕ, ◌+◌, ◌*◌, Bool, true, false, ◌&&◌, ◌||◌, not, Option, none, some, List, [], ◌∷◌, ltb, ◌==◌,
  if◌then◌else◌, get_elem?,
}
use linux_programming_interf.Common.Int.{ℤ, minus_one, ◌==ℤ◌}
use linux_programming_interf.Inotify.Paths.{FilePath, path_max, name_max, join, snprintf}
use linux_programming_interf.Inotify.Run.{Run, ok, aborted, undefined, ◌>>=◌}
use linux_programming_interf.Inotify.Cache.{
  Watch, Cache, find_watch, mark_cache_slot_empty, pathname_to_cache_slot, rewrite_cached_paths,
}
use linux_programming_interf.Inotify.Kernel.{Os, Event}
use linux_programming_interf.Inotify.Roots.{Roots, is_root_dir_path, zap_root_dir_path}
use linux_programming_interf.Inotify.Tree.{
  Monitor, in_moved_from, in_moved_to, in_create, in_delete_self, in_move_self, watch_dir,
  zap_subtree, reinitialize, check_cache_consistency,
}

abbrev pub in_unmount : ℕ
in_unmount = 0x2000

abbrev pub in_q_overflow : ℕ
in_q_overflow = 0x4000

abbrev pub in_ignored : ℕ
in_ignored = 0x8000

abbrev pub in_isdir : ℕ
in_isdir = 0x4000_0000

-- `sizeof(struct inotify_event)`, without the name
abbrev pub header_len : ℕ
header_len = 16

-- INOTIFY_READ_BUF_LEN
abbrev pub read_buf_len : ℕ
read_buf_len = 100 * (header_len + name_max + 1)

abbrev pub event_len : Event → ℕ
event_len ev = header_len + ev.len

-- `ev->mask & flag`, as a test
unfoldable pub has_flag : ℕ → ℕ → Bool
has_flag mask flag = not (bit_and mask flag == 0)

-- `(ev->mask & flags) == flags`
unfoldable pub has_all : ℕ → ℕ → Bool
has_all mask flags = bit_and mask flags == flags

-- The value of processNextInotifyEvent(), `none` for -1, with `*inotifyFd` and the state.
pub record Processed (K : Type 0) : Type 0 where
  pub advance : Option ℕ
  pub fd : ℤ
  pub monitor : Monitor K

-- A branch returns at once, or runs on to the end of the function.
pub data Branch (K : Type 0) : Type 0 where
  returns : Processed K → Branch K
  goes_on : Processed K → Branch K

-- findWatchChecked(): the flag is `abortOnCacheProblem`.
pub find_watch_checked : Bool → Option ℕ → Run (Option ℕ)
find_watch_checked abort (some slot) = ok (some slot)
find_watch_checked true none = aborted
find_watch_checked false none = ok none

-- `wlCache[evCacheSlot].path`, where `evCacheSlot` may not have been set.
pub slot_path : Cache → Option ℕ → Run FilePath
slot_path c none = undefined
slot_path c (some slot) = elim (get_elem? c slot) [ none ↦ undefined | some w ↦ ok w.path ]

-- markCacheSlotEmpty(evCacheSlot)
pub empty_event_slot : Cache → Option ℕ → Cache
empty_event_slot c none = c
empty_event_slot c (some slot) = mark_cache_slot_empty c slot

module _ {K : Type 0} (os : Os K) where
  abbrev pub carry_on : ℕ → ℤ → Monitor K → Branch K
  carry_on len fd m = goes_on (record { advance = some len; fd = fd; monitor = m })

  -- `*inotifyFd = reinitialize(*inotifyFd); return INOTIFY_READ_BUF_LEN;`
  pub discard_rest : ℤ → Monitor K → Run (Branch K)
  discard_rest fd m = do
    (fd', m') ← reinitialize os fd m
    ok (returns (record { advance = some read_buf_len; fd = fd'; monitor = m' }))

  -- watchSubtree(), unless pathnameInCache() says that the subtree is cached.
  pub watch_unless_cached : ℤ → Monitor K → FilePath → Option ℕ → Run (Monitor K)
  watch_unless_cached fd m full_path (some slot) = ok m
  watch_unless_cached fd m full_path none = watch_dir os fd m full_path

  -- IN_CREATE or IN_MOVED_TO of a directory.
  pub dir_created : ℤ → Monitor K → Option ℕ → Event → Run (Branch K)
  unfolding watch_unless_cached slot_path
  dir_created fd m slot ev = do
    path ← slot_path m.cache slot
    let full_path : FilePath = snprintf (path_max + name_max) (join path ev.name)
    m' ← watch_unless_cached fd m full_path (pathname_to_cache_slot full_path m.cache)
    ok (carry_on (event_len ev) fd m')

  -- zapRootDirPath(), where the flag isRootDirPath() is set.
  pub zap_if_root : Bool → FilePath → Monitor K → Run (Monitor K)
  zap_if_root false path m = ok m
  zap_if_root true path m = zap_root_dir_path path m.roots >>= λ r. ok (record m { roots = r })

  -- IN_DELETE_SELF
  pub dir_deleted : ℤ → Monitor K → Option ℕ → Event → Run (Branch K)
  unfolding zap_if_root slot_path empty_event_slot
  dir_deleted fd m slot ev = do
    path ← slot_path m.cache slot
    m' ← zap_if_root (is_root_dir_path path m.roots) path m
    ok (carry_on (event_len ev) fd (record m' { cache = empty_event_slot m'.cache slot }))

  -- zapSubtree() and the test of its result, which discards the buffer where it is -1.
  pub zap_or_discard : ℕ → ℤ → Option ℕ × Monitor K → Run (Branch K)
  unfolding discard_rest
  zap_or_discard len fd (some n, m) = ok (carry_on len fd m)
  zap_or_discard len fd (none, m) = discard_rest fd m

  -- IN_MOVED_FROM with no IN_MOVED_TO behind it: the directory has left the monitored trees.
  pub moved_out : ℤ → Monitor K → Option ℕ → Event → Run (Branch K)
  unfolding zap_or_discard slot_path
  moved_out fd m slot ev = slot_path m.cache slot >>= λ path.
      zap_or_discard (event_len ev) fd
        (zap_subtree os fd m (snprintf (path_max + name_max) (join path ev.name)))

  -- A rename inside the trees, where the slot of the second event is known, or else -1.
  pub renamed : ℤ → Monitor K → Option ℕ → Event → Event → Option ℕ → Run (Branch K)
  unfolding discard_rest slot_path
  renamed fd m slot ev next none = discard_rest fd m
  renamed fd m slot ev next (some next_slot) = do
    path ← slot_path m.cache slot
    next_path ← slot_path m.cache (some next_slot)
    ok (
        carry_on (event_len ev + event_len next) fd
          (record m { cache = rewrite_cached_paths path ev.name next_path next.name m.cache }))

  -- A directory's IN_MOVED_FROM that is not the last event of the buffer; `next` is `nextEv`.
  pub moved_from_before : ℤ → Monitor K → Option ℕ → Event → Event → Run (Branch K)
  unfolding renamed moved_out find_watch_checked
  moved_from_before fd m slot ev next =
      if has_flag next.mask in_moved_to && next.cookie == ev.cookie
      then (find_watch_checked m.abort_on_cache_problem (find_watch next.wd m.cache)
          >>= renamed fd m slot ev next)
      else moved_out fd m slot ev

  -- A directory's IN_MOVED_FROM at the end of the buffer: -1 asks the caller to read on.
  pub moved_from_last : Bool → ℤ → Monitor K → Option ℕ → Event → Run (Branch K)
  unfolding moved_out
  moved_from_last true fd m slot ev = ok (returns (record { advance = none; fd = fd; monitor = m }))
  moved_from_last false fd m slot ev = moved_out fd m slot ev

  -- A directory's IN_MOVED_FROM. The flag tells whether the next event begins inside the buffer.
  pub dir_moved_from : Bool → Bool → ℤ → Monitor K → Option ℕ → Event → List Event → Run (Branch K)
  unfolding moved_from_before moved_from_last
  dir_moved_from true first_try fd m slot ev [] = undefined
  dir_moved_from true first_try fd m slot ev (next ∷ rest) = moved_from_before fd m slot ev next
  dir_moved_from false first_try fd m slot ev rest = moved_from_last first_try fd m slot ev

  -- IN_Q_OVERFLOW
  pub overflowed : ℤ → Monitor K → Run (Branch K)
  overflowed fd m = do
    (fd', m') ← reinitialize os fd (record m { overflow_cnt = m.overflow_cnt + 1 })
    ok (carry_on read_buf_len fd' m')

  -- IN_UNMOUNT
  pub unmounted : ℤ → Monitor K → Option ℕ → Event → Run (Branch K)
  unfolding slot_path empty_event_slot
  unmounted fd m slot ev = do
    path ← slot_path m.cache slot
    ok (carry_on (event_len ev) fd (record m { cache = empty_event_slot m.cache slot }))

  -- IN_MOVE_SELF, which counts only for a root: the flag is isRootDirPath().
  pub root_moved : Bool → ℤ → Monitor K → FilePath → Event → Run (Branch K)
  unfolding zap_or_discard
  root_moved false fd m path ev = ok (carry_on (event_len ev) fd m)
  root_moved true fd m path ev = zap_root_dir_path path m.roots >>= λ r.
      zap_or_discard (event_len ev) fd (zap_subtree os fd (record m { roots = r }) path)

  -- IN_MOVE_SELF
  pub self_moved : ℤ → Monitor K → Option ℕ → Event → Run (Branch K)
  unfolding root_moved slot_path
  self_moved fd m slot ev =
      slot_path m.cache slot >>= λ path. root_moved (is_root_dir_path path m.roots) fd m path ev

  -- The branches of processNextInotifyEvent(), in their order.
  pub dispatch : ℤ → Monitor K → Option ℕ → Event → List Event → ℕ → Bool → Run (Branch K)
  unfolding dir_created dir_deleted dir_moved_from overflowed unmounted self_moved has_flag has_all
  dispatch fd m slot ev rest buf_size first_try =
      if has_flag ev.mask in_isdir && has_flag ev.mask (in_create + in_moved_to)
      then dir_created fd m slot ev
      else if has_flag ev.mask in_delete_self
      then dir_deleted fd m slot ev
      else if has_all ev.mask (in_moved_from + in_isdir)
      then dir_moved_from (ltb (event_len ev) buf_size) first_try fd m slot ev rest
      else if has_flag ev.mask in_q_overflow
      then overflowed fd m
      else if has_flag ev.mask in_unmount
      then unmounted fd m slot ev
      else if has_flag ev.mask in_move_self
      then self_moved fd m slot ev
      else ok (carry_on (event_len ev) fd m)

  -- The end of the function, with checkCacheConsistency() where that is on.
  pub conclude : Branch K → Run (Processed K)
  conclude (returns p) = ok p
  conclude (goes_on p) =
      if p.monitor.check_cache
      then (check_cache_consistency os p.monitor.os p.monitor.cache >>= λ _. ok p)
      else ok p

  -- From the result of findWatchChecked(): -1 discards the buffer.
  pub process_checked : ℤ → Monitor K → Option ℕ → Event → List Event → ℕ → Bool → Run (Processed K)
  unfolding dispatch conclude discard_rest
  process_checked fd m none ev rest buf_size first_try = discard_rest fd m >>= conclude
  process_checked fd m (some slot) ev rest buf_size first_try =
      dispatch fd m (some slot) ev rest buf_size first_try >>= conclude

  -- processNextInotifyEvent(): the events of `buf`, `bufSize` and `firstTry`.
  unfoldable pub process_next_inotify_event :
      ℤ → Monitor K → List Event → ℕ → Bool → Run (Processed K)
  unfolding process_checked find_watch_checked
  process_next_inotify_event fd m [] buf_size first_try = undefined
  process_next_inotify_event fd m (ev ∷ rest) buf_size first_try =
      if not (ev.wd ==ℤ minus_one) && not (has_flag ev.mask in_ignored)
      then (find_watch_checked m.abort_on_cache_problem (find_watch ev.wd m.cache) >>= λ slot.
          process_checked fd m slot ev rest buf_size first_try)
      else (dispatch fd m none ev rest buf_size first_try >>= conclude)
