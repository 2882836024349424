-- ===== src/Inotify/Tests.antt =====
-- Runs of the directory monitor on a small kernel, and its theorems at concrete states.
use linux_programming_interf.Common.{
  ℕ, ◌+◌, ◌≡◌, refl, true, false, some, [], ◌∷◌, ◌++◌, arith, ◌==◌, if◌then◌else◌, map,
}
use linux_programming_interf.Common.Int.{ℤ, pos}
use linux_programming_interf.Inotify.Paths.{FilePath, strncpy, is_under}
use linux_programming_interf.Inotify.Run.{Run, ok, ok, Holds}
use linux_programming_interf.Inotify.Kernel.{Os, Event, added, directory, read_failed, got}
use linux_programming_interf.Inotify.Cache.{
  Watch, Cache, empty_slot, find_watch, rewrite_cached_paths,
}
use linux_programming_interf.Inotify.Cache.Distinct.{Distinct}
use linux_programming_interf.Inotify.Cache.Lookup.{path_of}
use linux_programming_interf.Inotify.Roots.{Roots}
use linux_programming_interf.Inotify.Tree.{
  Monitor, in_moved_from, in_moved_to, watch_dir, zap_subtree,
}
use linux_programming_interf.Inotify.Tree.Keep.{IsKept, watch_dir-IsKept}
use linux_programming_interf.Inotify.Tree.Zap.{
  victims, unless_under, zap_subtree-path_of, zap_subtree-IsKept,
}
use linux_programming_interf.Inotify.Event.{in_isdir, process_next_inotify_event}
use linux_programming_interf.Inotify.Event.Advance.{Progress, process_next_inotify_event-Progress}
use linux_programming_interf.Inotify.Loop.{process_read, process_inotify_events}
use linux_programming_interf.Inotify.Loop.Ends.{process_read-ends}

-- "/a", "/a/x", "/b"
abbrev pub dir_a : FilePath
dir_a = b'/' ∷ b'a' ∷ []

abbrev pub dir_x : FilePath
dir_x = b'/' ∷ b'a' ∷ b'/' ∷ b'x' ∷ []

abbrev pub dir_b : FilePath
dir_b = b'/' ∷ b'b' ∷ []

-- A kernel whose state is the next descriptor; every walk finds the directory and one below it.
abbrev kernel : Os ℕ
kernel = record {
  realloc = λ k n. (true, k);
  inotify_init = λ k. (some k, k + 1);
  close = λ k fd. k;
  add_watch = λ k fd path mask. (added k, k + 1);
  rm_watch = λ k fd wd. (true, k);
  nftw = λ k path. (
    record { pathname = path; is_dir = true }
        ∷ record { pathname = path ++ b'/' ∷ b'x' ∷ []; is_dir = true }
        ∷ [],
    k,
  );
  lstat = λ k path. directory;
  read = λ k fd. (read_failed 4, k);
}

abbrev watch_a : Watch
watch_a = record { wd = pos 1; path = dir_a }

abbrev watch_x : Watch
watch_x = record { wd = pos 2; path = dir_x }

abbrev watch_b : Watch
watch_b = record { wd = pos 3; path = dir_b }

abbrev cache : Cache
cache = watch_a ∷ empty_slot ∷ watch_x ∷ watch_b ∷ []

abbrev roots : Roots
roots = record { paths = some dir_a ∷ some dir_b ∷ []; ignored = 0 }

abbrev monitor : Monitor ℕ
monitor = record {
  cache = cache;
  roots = roots;
  dir_cnt = 0;
  reinit_cnt = 0;
  overflow_cnt = 0;
  read_cnt = 0;
  check_cache = false;
  abort_on_cache_problem = false;
  os = 10;
}

cache-Distinct : Distinct cache
cache-Distinct = (refl, (refl, (refl, (refl, tt))))

watch_dir-IsKept_example : Holds IsKept (watch_dir kernel (pos 0) monitor dir_b)
watch_dir-IsKept_example = watch_dir-IsKept kernel (pos 0) monitor dir_b cache-Distinct

zap_subtree-path_of_example :
    (2 ≡ victims dir_a cache)
    × ((k : ℕ)
        → path_of k (zap_subtree kernel (pos 0) monitor dir_a).1.cache
          ≡ unless_under dir_a (path_of k cache))
unfolding zap_subtree is_under
zap_subtree-path_of_example = zap_subtree-path_of kernel (pos 0) monitor dir_a cache-Distinct refl

zap_subtree-IsKept_example : IsKept (zap_subtree kernel (pos 0) monitor dir_a).1
zap_subtree-IsKept_example = zap_subtree-IsKept kernel (pos 0) monitor dir_a cache-Distinct

-- "/a/x" is renamed to "/b/y".
abbrev from_event : Event
from_event = record {
  wd = pos 1;
  mask = in_moved_from + in_isdir;
  cookie = 5;
  len = 16;
  name = b'x' ∷ [];
}

abbrev to_event : Event
to_event = record {
  wd = pos 3;
  mask = in_moved_to + in_isdir;
  cookie = 5;
  len = 16;
  name = b'y' ∷ [];
}

process_next_inotify_event-Progress_example :
    Holds
      (Progress (pos 0) monitor true)
      (process_next_inotify_event kernel (pos 0) monitor (from_event ∷ []) 32 true)
process_next_inotify_event-Progress_example =
    process_next_inotify_event-Progress kernel (pos 0) monitor (from_event ∷ []) 32 true

process_read-ends_example :
    (r : Run (ℤ × Monitor ℕ)) × (process_read kernel 100 (pos 0) monitor (got (from_event ∷ []))
      ≡ some r)
process_read-ends_example =
    process_read-ends kernel (λ k fd. refl) (pos 0) monitor (from_event ∷ []) 100 (omega arith)

-- The same kernel with the two events to read first.
abbrev pub busy_kernel : Os ℕ
busy_kernel = record kernel {
  read = λ k fd. if k == 10 then (got (from_event ∷ to_event ∷ []), k + 1) else (read_failed 4, k);
}

abbrev after_rename : Monitor ℕ
after_rename = record monitor {
  cache = rewrite_cached_paths dir_a (b'x' ∷ []) dir_b (b'y' ∷ []) cache;
  read_cnt = 1;
  os = 11;
}

busy_run : process_inotify_events busy_kernel 9 (pos 0) monitor ≡ some (ok (pos 0, after_rename))
unfolding process_inotify_events find_watch
busy_run = refl

renamed_paths :
    map (λ (w : Watch). w.path) after_rename.cache
    ≡ dir_a ∷ [] ∷ (b'/' ∷ b'b' ∷ b'/' ∷ b'y' ∷ []) ∷ dir_b ∷ []
unfolding rewrite_cached_paths strncpy
renamed_paths = refl
