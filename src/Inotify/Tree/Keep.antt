-- ===== src/Inotify/Tree/Keep.antt =====
-- The cache's invariant, for the walks.
use linux_programming_interf.Common.{
  ℕ, ◌+◌, ◌≡◌, refl, false, not, Option, none, some, List, [], ◌∷◌, ◌==◌, length,
}
use linux_programming_interf.Common.Int.{ℤ, pos}
use linux_programming_interf.Inotify.Paths.{FilePath}
use linux_programming_interf.Inotify.Run.{Holds, holds, fails, Holds-bind, Holds-if}
use linux_programming_interf.Inotify.Cache.{free_cache, find_watch, is_full, alloc_incr}
use linux_programming_interf.Inotify.Cache.Distinct.{
  occurs, Distinct, find_watch-none, add_watch_to_cache-Distinct,
}
use linux_programming_interf.Inotify.Kernel.{Os, Visit, AddResult, added, add_failed}
use linux_programming_interf.Inotify.Tree.{
  Monitor, enoent, watch_flags, add_watch, cache_watch, watch_answer, close_old, rebuild,
  traverse_tree, traverse_all, watch_dir, watch_roots, reinitialize,
}

abbrev pub IsKept : {K : Type 0} → Monitor K → Type 0
IsKept m = Distinct m.cache

module _ {K : Type 0} (os : Os K) where
  add_watch-IsKept :
      (m : Monitor K) (wd : ℕ) (pathname : FilePath)
      → IsKept m
      → occurs (pos wd) m.cache ≡ false
      → Holds IsKept (add_watch os m wd pathname)
  unfolding add_watch
  add_watch-IsKept m wd pathname d h =
      let e = add_watch_to_cache-Distinct wd pathname m.cache d h in
      Holds-if (is_full m.cache)
        (Holds-if (os.realloc m.os (length m.cache + alloc_incr)).0 (holds e) fails) (holds e)

  cache_watch-IsKept :
      (m : Monitor K) (o : Option ℕ) (wd : ℕ) (pathname : FilePath)
      → find_watch (pos wd) m.cache ≡ o
      → IsKept m
      → Holds IsKept (cache_watch os m o wd pathname)
  unfolding cache_watch
  cache_watch-IsKept m (some slot) wd pathname e d = holds d
  cache_watch-IsKept m none wd pathname e d =
      add_watch-IsKept (record m { dir_cnt = m.dir_cnt + 1 }) wd pathname d
        (find_watch-none (pos wd) m.cache e)

  watch_answer-IsKept :
      (m : Monitor K) (a : AddResult) (pathname : FilePath)
      → IsKept m
      → Holds IsKept (watch_answer os m a pathname)
  unfolding watch_answer
  watch_answer-IsKept m (add_failed errno) pathname d = Holds-if (errno == enoent) (holds d) fails
  watch_answer-IsKept m (added wd) pathname d = cache_watch-IsKept m _ wd pathname refl d

  traverse_tree-IsKept :
      (ifd : ℤ) (m : Monitor K) (v : Visit) → IsKept m → Holds IsKept (traverse_tree os ifd m v)
  unfolding traverse_tree
  traverse_tree-IsKept ifd m v d =
      let answer = os.add_watch m.os ifd v.pathname (watch_flags v.pathname m.roots) in
      Holds-if (not v.is_dir) (holds d)
        (watch_answer-IsKept (record m { os = answer.1 }) answer.0 v.pathname d)

  traverse_all-IsKept :
      (ifd : ℤ) (m : Monitor K) (vs : List Visit)
      → IsKept m
      → Holds IsKept (traverse_all os ifd m vs)
  unfolding traverse_all
  traverse_all-IsKept ifd m [] d = holds d
  traverse_all-IsKept ifd m (v ∷ vs) d =
      Holds-bind (traverse_tree-IsKept ifd m v d) λ m' d'. traverse_all-IsKept ifd m' vs d'

  -- watchDir(), whatever nftw() visits and inotify_add_watch() answers, leaves no descriptor in two
  -- slots of the cache, if there was none before.
  pub watch_dir-IsKept :
      (ifd : ℤ) (m : Monitor K) (path : FilePath)
      → IsKept m
      → Holds IsKept (watch_dir os ifd m path)
  unfolding watch_dir
  watch_dir-IsKept ifd m path d =
      let walk = os.nftw m.os path in
      traverse_all-IsKept ifd (record m { dir_cnt = 0; os = walk.1 }) walk.0 d

  watch_roots-IsKept :
      (ifd : ℤ) (m : Monitor K) (ps : List (Option FilePath))
      → IsKept m
      → Holds IsKept (watch_roots os ifd m ps)
  unfolding watch_roots
  watch_roots-IsKept ifd m [] d = holds d
  watch_roots-IsKept ifd m (none ∷ ps) d = watch_roots-IsKept ifd m ps d
  watch_roots-IsKept ifd m (some p ∷ ps) d =
      Holds-bind (watch_dir-IsKept ifd m p d) λ m' d'. watch_roots-IsKept ifd m' ps d'

  rebuild-IsKept :
      (m : Monitor K) (fd : Option ℕ) → IsKept m → Holds (λ r. IsKept (r.1)) (rebuild os m fd)
  unfolding rebuild
  rebuild-IsKept m none d = fails
  rebuild-IsKept m (some n) d =
      Holds-bind (watch_roots-IsKept (pos n) m m.roots.paths d) λ m' d'. holds d'

  -- reinitialize() builds a cache with no descriptor in two slots, from any cache.
  pub reinitialize-IsKept :
      (old_fd : ℤ) (m : Monitor K) → Holds (λ r. IsKept r.1) (reinitialize os old_fd m)
  unfolding reinitialize free_cache
  reinitialize-IsKept old_fd m =
      let closed : Monitor K = close_old os old_fd m in
      let answer = os.inotify_init closed.os in
      rebuild-IsKept (record closed { cache = free_cache closed.cache; os = answer.1 }) answer.0 tt
