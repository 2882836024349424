-- ===== src/Inotify/Tree.antt =====
-- The walks of inotify_dtree.c over the tree and over the cache: traverseTree(), watchDir(),
-- zapSubtree(), reinitialize(), checkCacheConsistency().
pub mod Keep
pub mod Zap
use Prim.Native.Nat.{bit_or}
use linux_programming_interf.Common.{
  ℕ, ◌+◌, Bool, true, false, ◌&&◌, not, Option, none, some, List, [], ◌∷◌, ◌==◌, if◌then◌else◌,
  length,
}
use linux_programming_interf.Common.Int.{ℤ, pos, minus_one, is_nonneg}
use linux_programming_interf.Inotify.Paths.{FilePath, is_under}
use linux_programming_interf.Inotify.Run.{
  Run, ok, exit_success, exit_failure, aborted, undefined, ◌>>=◌,
}
use linux_programming_interf.Inotify.Cache.{
  Watch, Cache, empty_slot, free_cache, find_watch, is_full, alloc_incr, add_watch_to_cache,
}
use linux_programming_interf.Inotify.Kernel.{
  Os, Visit, AddResult, added, add_failed, LstatResult, missing, directory, other_file,
}
use linux_programming_interf.Inotify.Roots.{Roots, is_root_dir_path}

-- The flags of <sys/inotify.h>
abbrev pub in_moved_from : ℕ
in_moved_from = 0x40

abbrev pub in_moved_to : ℕ
in_moved_to = 0x80

abbrev pub in_create : ℕ
in_create = 0x100

abbrev pub in_delete_self : ℕ
in_delete_self = 0x400

abbrev pub in_move_self : ℕ
in_move_self = 0x800

abbrev pub in_onlydir : ℕ
in_onlydir = 0x0100_0000

abbrev pub enoent : ℕ
enoent = 2

-- The static variables of the program that its behaviour depends on, with the outside world.
pub record Monitor (K : Type 0) : Type 0 where
  pub cache : Cache
  pub roots : Roots
  pub dir_cnt : ℕ
  pub reinit_cnt : ℕ
  pub overflow_cnt : ℕ
  pub read_cnt : ℕ
  pub check_cache : Bool
  pub abort_on_cache_problem : Bool
  pub os : K

-- `flags` of traverseTree(), with IN_ONLYDIR
pub watch_flags : FilePath → Roots → ℕ
watch_flags pathname r =
    let flags = bit_or (bit_or in_create in_moved_from) (bit_or in_moved_to in_delete_self) in
    bit_or (if is_root_dir_path pathname r then bit_or flags in_move_self else flags) in_onlydir

module _ {K : Type 0} (os : Os K) where
  -- addWatchToCache() with the realloc() that it may call.
  unfoldable pub add_watch : Monitor K → ℕ → FilePath → Run (Monitor K)
  add_watch m wd pathname =
      let c : Cache = (add_watch_to_cache (pos wd) pathname m.cache).1 in
      if is_full m.cache
      then (let (room, k) = os.realloc m.os (length m.cache + alloc_incr) in
          if room then ok (record m { cache = c; os = k }) else exit_failure)
      else ok (record m { cache = c })

  -- The end of traverseTree(): the second argument is the answer of findWatch().
  unfoldable pub cache_watch : Monitor K → Option ℕ → ℕ → FilePath → Run (Monitor K)
  unfolding add_watch
  cache_watch m (some slot) wd pathname = ok m
  cache_watch m none wd pathname = add_watch (record m { dir_cnt = m.dir_cnt + 1 }) wd pathname

  -- What traverseTree() does with the answer of inotify_add_watch().
  unfoldable pub watch_answer : Monitor K → AddResult → FilePath → Run (Monitor K)
  unfolding cache_watch
  watch_answer m (add_failed errno) pathname = if errno == enoent then ok m else exit_failure
  watch_answer m (added wd) pathname = cache_watch m (find_watch (pos wd) m.cache) wd pathname

  -- traverseTree()
  unfoldable pub traverse_tree : ℤ → Monitor K → Visit → Run (Monitor K)
  unfolding watch_answer
  traverse_tree ifd m v =
      let (answer, k) = os.add_watch m.os ifd v.pathname (watch_flags v.pathname m.roots) in
      if not v.is_dir then ok m else watch_answer (record m { os = k }) answer v.pathname

  -- nftw() calls traverseTree() for each file, and goes on as long as that returns 0.
  unfoldable pub traverse_all : ℤ → Monitor K → List Visit → Run (Monitor K)
  unfolding traverse_tree
  traverse_all ifd m [] = ok m
  traverse_all ifd m (v ∷ vs) = traverse_tree ifd m v >>= λ m'. traverse_all ifd m' vs

  -- watchDir(); watchSubtree() adds a log message.
  unfoldable pub watch_dir : ℤ → Monitor K → FilePath → Run (Monitor K)
  unfolding traverse_all
  watch_dir ifd m pathname =
      let (visits, k) = os.nftw m.os pathname in
      traverse_all ifd (record m { dir_cnt = 0; os = k }) visits

  -- The loop of zapSubtree() over the slots: the entries zapped (`none` is -1, where
  -- inotify_rm_watch() failed and the loop was left), the slots as they are then.
  unfoldable pub zap_slots : ℤ → FilePath → ℕ → K → Cache → Option ℕ × Cache × K
  zap_slots ifd pn cnt k [] = (some cnt, [], k)
  zap_slots ifd pn cnt k (w ∷ ws) = elim (is_nonneg w.wd && is_under pn w.path) [
    | false ↦ (let (n, ws', k') = zap_slots ifd pn cnt k ws in (n, w ∷ ws', k'))
    | true ↦
        let (removed, k₁) = os.rm_watch k ifd w.wd in
        let (n, ws', k₂) = zap_slots ifd pn (cnt + 1) k₁ ws in
        elim removed [ false ↦ (none, w ∷ ws, k₁) | true ↦ (n, empty_slot ∷ ws', k₂) ]
  ]

  -- zapSubtree()
  unfoldable pub zap_subtree : ℤ → Monitor K → FilePath → Option ℕ × Monitor K
  unfolding zap_slots
  zap_subtree ifd m path =
      let (n, c, k) = zap_slots ifd path 0 m.os m.cache in (n, record m { cache = c; os = k })

  -- The loop of reinitialize() over the roots.
  unfoldable pub watch_roots : ℤ → Monitor K → List (Option FilePath) → Run (Monitor K)
  unfolding watch_dir
  watch_roots ifd m [] = ok m
  watch_roots ifd m (none ∷ ps) = watch_roots ifd m ps
  watch_roots ifd m (some p ∷ ps) = watch_dir ifd m p >>= λ m'. watch_roots ifd m' ps

  -- The beginning of reinitialize(): a descriptor of -1 is the first build of the cache.
  unfoldable pub close_old : ℤ → Monitor K → Monitor K
  close_old old_inotify_fd m =
      if is_nonneg old_inotify_fd
      then record m { os = os.close m.os old_inotify_fd; reinit_cnt = m.reinit_cnt + 1 }
      else record m { reinit_cnt = 0 }

  -- The end of reinitialize(), from the answer of inotify_init().
  unfoldable pub rebuild : Monitor K → Option ℕ → Run (ℤ × Monitor K)
  unfolding watch_roots
  rebuild m none = exit_failure
  rebuild m (some n) = watch_roots (pos n) m m.roots.paths >>= λ m'. ok (pos n, m')

  -- reinitialize(): the new inotify descriptor and the rebuilt cache.
  unfoldable pub reinitialize : ℤ → Monitor K → Run (ℤ × Monitor K)
  unfolding rebuild close_old
  reinitialize old_inotify_fd m =
      let closed : Monitor K = close_old old_inotify_fd m in
      let (fd, k) = os.inotify_init closed.os in
      rebuild (record closed { cache = free_cache closed.cache; os = k }) fd

  -- checkCacheConsistency(): a cached pathname that is no directory ends the program.
  unfoldable pub check_cache_consistency : K → Cache → Run (Unit {0})
  check_cache_consistency k [] = ok tt
  check_cache_consistency k (w ∷ ws) =
      let rest = check_cache_consistency k ws in
      if is_nonneg w.wd
      then elim (os.lstat k w.path) [
        | missing ↦ rest
        | directory ↦ rest
        | other_file ↦ exit_failure
      ]
      else rest
