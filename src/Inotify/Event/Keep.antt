-- ===== src/Inotify/Event/Keep.antt =====
-- The cache's invariant, for each branch of processNextInotifyEvent().
use linux_programming_interf.Common.{
  ℕ, ◌+◌, Bool, true, false, ◌&&◌, Option, none, some, List, [], ◌∷◌, ltb, ◌==◌,
}
use linux_programming_interf.Common.Int.{ℤ}
use linux_programming_interf.Inotify.Paths.{FilePath, path_max, name_max, join, snprintf}
use linux_programming_interf.Inotify.Run.{Holds, holds, strays, Holds-bind, Holds-if}
use linux_programming_interf.Inotify.Cache.{Cache, find_watch, pathname_to_cache_slot}
use linux_programming_interf.Inotify.Cache.Distinct.{
  Distinct, mark_cache_slot_empty-Distinct, rewrite_cached_paths-Distinct,
}
use linux_programming_interf.Inotify.Kernel.{Os, Event}
use linux_programming_interf.Inotify.Roots.{is_root_dir_path, zap_root_dir_path}
use linux_programming_interf.Inotify.Tree.{Monitor, in_moved_to}
use linux_programming_interf.Inotify.Tree.Keep.{IsKept, watch_dir-IsKept, reinitialize-IsKept}
use linux_programming_interf.Inotify.Tree.Zap.{zap_subtree-IsKept}
use linux_programming_interf.Inotify.Event.{
  Branch, has_flag, event_len, find_watch_checked, slot_path, empty_event_slot, discard_rest,
  watch_unless_cached, dir_created, zap_if_root, dir_deleted, zap_or_discard, moved_out, renamed,
  moved_from_before, moved_from_last, dir_moved_from, overflowed, unmounted, root_moved, self_moved,
  process_next_inotify_event,
}
use linux_programming_interf.Inotify.Event.Cases.{outcome, Holds-any, EachBranch, process-outcome}

abbrev KeptBranch : {K : Type 0} → Branch K → Type 0
KeptBranch b = IsKept (outcome b).monitor

empty_event_slot-Distinct :
    (c : Cache) (slot : Option ℕ) → Distinct c → Distinct (empty_event_slot c slot)
unfolding empty_event_slot
empty_event_slot-Distinct c none d = d
empty_event_slot-Distinct c (some j) d = mark_cache_slot_empty-Distinct c j d

module _ {K : Type 0} (os : Os K) where
  discard_rest-Kept : (fd : ℤ) (m : Monitor K) → Holds KeptBranch (discard_rest os fd m)
  unfolding discard_rest
  discard_rest-Kept fd m = Holds-bind (reinitialize-IsKept os fd m) λ a k. holds k

  watch_unless_cached-Kept :
      (fd : ℤ) (m : Monitor K) (p : FilePath) (o : Option ℕ)
      → IsKept m
      → Holds IsKept (watch_unless_cached os fd m p o)
  unfolding watch_unless_cached
  watch_unless_cached-Kept fd m p (some j) d = holds d
  watch_unless_cached-Kept fd m p none d = watch_dir-IsKept os fd m p d

  dir_created-Kept :
      (fd : ℤ) (m : Monitor K) (slot : Option ℕ) (ev : Event)
      → IsKept m
      → Holds KeptBranch (dir_created os fd m slot ev)
  unfolding dir_created
  dir_created-Kept fd m slot ev d = Holds-bind (Holds-any (slot_path m.cache slot)) λ path _.
      let full_path : FilePath = snprintf (path_max + name_max) (join path ev.name) in
      Holds-bind
        (watch_unless_cached-Kept fd m full_path (pathname_to_cache_slot full_path m.cache) d)
        λ m' d'. holds d'

  zap_if_root-Kept :
      (b : Bool) (path : FilePath) (m : Monitor K)
      → IsKept m
      → Holds IsKept (zap_if_root os b path m)
  unfolding zap_if_root
  zap_if_root-Kept false path m d = holds d
  zap_if_root-Kept true path m d =
      Holds-bind (Holds-any (zap_root_dir_path path m.roots)) λ r _. holds d

  dir_deleted-Kept :
      (fd : ℤ) (m : Monitor K) (slot : Option ℕ) (ev : Event)
      → IsKept m
      → Holds KeptBranch (dir_deleted os fd m slot ev)
  unfolding dir_deleted
  dir_deleted-Kept fd m slot ev d = Holds-bind (Holds-any (slot_path m.cache slot)) λ path _.
      Holds-bind (zap_if_root-Kept (is_root_dir_path path m.roots) path m d)
        λ m' d'. holds (empty_event_slot-Distinct m'.cache slot d')

  zap_or_discard-Kept :
      (len : ℕ) (fd : ℤ) (z : Option ℕ × Monitor K)
      → IsKept z.1
      → Holds KeptBranch (zap_or_discard os len fd z)
  unfolding zap_or_discard
  zap_or_discard-Kept len fd (some n, m) d = holds d
  zap_or_discard-Kept len fd (none, m) d = discard_rest-Kept fd m

  moved_out-Kept :
      (fd : ℤ) (m : Monitor K) (slot : Option ℕ) (ev : Event)
      → IsKept m
      → Holds KeptBranch (moved_out os fd m slot ev)
  unfolding moved_out
  moved_out-Kept fd m slot ev d =
      Holds-bind (Holds-any (slot_path m.cache slot))
        λ path _. zap_or_discard-Kept _ fd _ (zap_subtree-IsKept os fd m _ d)

  renamed-Kept :
      (fd : ℤ) (m : Monitor K) (slot : Option ℕ) (ev next : Event) (o : Option ℕ)
      → IsKept m
      → Holds KeptBranch (renamed os fd m slot ev next o)
  unfolding renamed
  renamed-Kept fd m slot ev next none d = discard_rest-Kept fd m
  renamed-Kept fd m slot ev next (some j) d =
      Holds-bind (Holds-any (slot_path m.cache slot)) λ path _.
        Holds-bind (Holds-any (slot_path m.cache (some j))) λ next_path _.
          holds (rewrite_cached_paths-Distinct path ev.name next_path next.name m.cache d)

  dir_moved_from-Kept :
      (inside first_try : Bool) (fd : ℤ) (m : Monitor K) (slot : Option ℕ) (ev : Event)
      (rest : List Event)
      → IsKept m
      → Holds KeptBranch (dir_moved_from os inside first_try fd m slot ev rest)
  unfolding dir_moved_from moved_from_before moved_from_last
  dir_moved_from-Kept true first_try fd m slot ev [] d = strays
  dir_moved_from-Kept true first_try fd m slot ev (next ∷ rest) d =
      Holds-if (has_flag next.mask in_moved_to && next.cookie == ev.cookie)
        (Holds-bind
          (Holds-any (find_watch_checked m.abort_on_cache_problem (find_watch next.wd m.cache)))
          λ o _. renamed-Kept fd m slot ev next o d)
        (moved_out-Kept fd m slot ev d)
  dir_moved_from-Kept false true fd m slot ev rest d = holds d
  dir_moved_from-Kept false false fd m slot ev rest d = moved_out-Kept fd m slot ev d

  root_moved-Kept :
      (b : Bool) (fd : ℤ) (m : Monitor K) (path : FilePath) (ev : Event)
      → IsKept m
      → Holds KeptBranch (root_moved os b fd m path ev)
  unfolding root_moved
  root_moved-Kept false fd m path ev d = holds d
  root_moved-Kept true fd m path ev d =
      Holds-bind (Holds-any (zap_root_dir_path path m.roots))
        λ r _. zap_or_discard-Kept _ fd _ (zap_subtree-IsKept os fd (record m { roots = r }) path d)

  self_moved-Kept :
      (fd : ℤ) (m : Monitor K) (slot : Option ℕ) (ev : Event)
      → IsKept m
      → Holds KeptBranch (self_moved os fd m slot ev)
  unfolding self_moved
  self_moved-Kept fd m slot ev d =
      Holds-bind (Holds-any (slot_path m.cache slot))
        λ path _. root_moved-Kept (is_root_dir_path path m.roots) fd m path ev d

  overflowed-Kept : (fd : ℤ) (m : Monitor K) → Holds KeptBranch (overflowed os fd m)
  unfolding overflowed
  overflowed-Kept fd m =
      Holds-bind (reinitialize-IsKept os fd (record m { overflow_cnt = m.overflow_cnt + 1 }))
        λ a k. holds k

  unmounted-Kept :
      (fd : ℤ) (m : Monitor K) (slot : Option ℕ) (ev : Event)
      → IsKept m
      → Holds KeptBranch (unmounted os fd m slot ev)
  unfolding unmounted
  unmounted-Kept fd m slot ev d =
      Holds-bind (Holds-any (slot_path m.cache slot))
        λ path _. holds (empty_event_slot-Distinct m.cache slot d)

  branches-Kept :
      (fd : ℤ) (m : Monitor K) (slot : Option ℕ) (ev : Event) (rest : List Event) (size : ℕ)
      (first_try : Bool)
      → IsKept m
      → EachBranch os KeptBranch fd m slot ev rest size first_try
  branches-Kept fd m slot ev rest size first_try d = record {
    created = dir_created-Kept fd m slot ev d;
    deleted = dir_deleted-Kept fd m slot ev d;
    moved = dir_moved_from-Kept (ltb (event_len ev) size) first_try fd m slot ev rest d;
    overflow = overflowed-Kept fd m;
    unmount = unmounted-Kept fd m slot ev d;
    self = self_moved-Kept fd m slot ev d;
    plain = d;
  }

  -- processNextInotifyEvent() keeps the cache free of a descriptor in two slots: on every branch, for
  -- every event, whatever the kernel and nftw() answer, wherever the function returns a value.
  pub process_next_inotify_event-IsKept :
      (fd : ℤ) (m : Monitor K) (events : List Event) (size : ℕ) (first_try : Bool)
      → IsKept m
      → Holds (λ p. IsKept p.monitor) (process_next_inotify_event os fd m events size first_try)
  process_next_inotify_event-IsKept fd m events size first_try d =
      process-outcome os (λ p. IsKept p.monitor) fd m events size first_try (discard_rest-Kept fd m)
        (λ slot ev rest. branches-Kept fd m slot ev rest size first_try d)
