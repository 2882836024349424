-- ===== src/Inotify/Event/Rename.antt =====
-- A rename inside the monitored trees, seen by processNextInotifyEvent() as IN_MOVED_FROM with
-- IN_MOVED_TO right behind it.
use mathlib.Core.Option
use linux_programming_interf.Common.{ℕ, ◌+◌, ◌<◌, ◌≡◌, true, false, none, some, get_elem?, length}
use linux_programming_interf.Common.Int.{ℤ, minus_one, ◌==ℤ◌}
use linux_programming_interf.Inotify.Cache.{Watch, Cache, find_watch, rewrite_cached_paths}
use linux_programming_interf.Inotify.Cache.Lookup.{path_of}
use linux_programming_interf.Inotify.Paths.{FilePath, path_max}
use linux_programming_interf.Inotify.Paths.Under.{Renamed}
use linux_programming_interf.Inotify.Kernel.{Os, Event}
use linux_programming_interf.Inotify.Tree.{Monitor, in_moved_from, in_moved_to}
use linux_programming_interf.Inotify.Event.{Processed, has_flag, in_isdir, event_len}

-- The pair of events: the first is a directory's IN_MOVED_FROM in slot `i`, the second, inside the
-- buffer and with the same cookie, an IN_MOVED_TO in slot `j`.
pub record IsRenamePair (c : Cache) (ev next : Event) (size i j : ℕ) (w w' : Watch) : Type 0 where
  pub a_watch : (ev.wd ==ℤ minus_one) ≡ false
  pub moved_from : ev.mask ≡ in_moved_from + in_isdir
  pub moved_to : has_flag next.mask in_moved_to ≡ true
  pub cookies : next.cookie ≡ ev.cookie
  pub inside : event_len ev < size
  pub from_slot : find_watch ev.wd c ≡ some i
  pub from_watch : get_elem? c i ≡ some w
  pub to_slot : find_watch next.wd c ≡ some j
  pub to_watch : get_elem? c j ≡ some w'

-- Each pathname of a cache under the rename of the directory `full` to `new`.
abbrev pub PathsRenamed : FilePath → FilePath → Cache → Cache → Type 0
PathsRenamed full new c c' =
    (k : ℕ)
    → (path_of k c ≡ none → path_of k c' ≡ none)
      × ((path : FilePath)
          → path_of k c ≡ some path
          → length new + length path < path_max
          → (path' : FilePath) × (path_of k c' ≡ some path') × Renamed full new path path')

module _ {K : Type 0} (os : Os K) (fd : ℤ) (m : Monitor K) (ev next : Event) (w w' : Watch) where
  abbrev rename_result : Processed K
  rename_result = record {
    advance = some (event_len ev + event_len next);
    fd = fd;
    monitor = record m { cache = rewrite_cached_paths w.path ev.name w'.path next.name m.cache };
  }
