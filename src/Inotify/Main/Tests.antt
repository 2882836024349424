-- ===== src/Inotify/Main/Tests.antt =====
-- A run of the whole program on the small kernel, and its theorems at concrete starts.
use linux_programming_interf.Common.{
  ℕ, ◌≡◌, refl, true, false, ◌&&◌, Option, none, some, List, [], ◌∷◌, map, if◌then◌else◌,
}
use linux_programming_interf.Common.Int.{pos}
use linux_programming_interf.Inotify.Paths.{FilePath, is_under, strncpy}
use linux_programming_interf.Inotify.Run.{Run, ok, exit_failure, undefined, Holds}
use linux_programming_interf.Inotify.Cache.{find_watch, free_cache, is_full, add_watch_to_cache}
use linux_programming_interf.Inotify.Kernel.{LstatResult, directory}
use linux_programming_interf.Inotify.Tree.{zap_subtree}
use linux_programming_interf.Inotify.Tree.Keep.{IsKept}
use linux_programming_interf.Inotify.Tests.{busy_kernel, dir_a, dir_b, dir_x}
use linux_programming_interf.Inotify.Startup.{FileId, copy_root_dir_paths}
use linux_programming_interf.Inotify.Startup.Accepts.{
  all_directories, pairwise_distinct, copy_root_dir_paths-pairwise_distinct,
}
use linux_programming_interf.Inotify.Command.{Session, Stdio, cached_paths}
use linux_programming_interf.Inotify.Main.{Turn, selected, Start, opt_x, main}
use linux_programming_interf.Inotify.Main.Keep.{main-IsKept}

-- Every pathname is for its own object, that with the i-node number of its last byte.
abbrev last_byte : FilePath → ℕ
last_byte [] = 0
last_byte (c ∷ []) = c
last_byte (c ∷ d ∷ cs) = last_byte (d ∷ cs)

abbrev stat_of : FilePath → Option FileId
stat_of path = some (record { st_ino = last_byte path; st_dev = 1 })

abbrev lstat_of : FilePath → LstatResult
lstat_of path = directory

copy_root_dir_paths-pairwise_distinct_example :
    copy_root_dir_paths lstat_of stat_of (dir_a ∷ dir_b ∷ dir_a ∷ []) ≡ (
      if all_directories lstat_of (dir_a ∷ dir_b ∷ dir_a ∷ [])
        && pairwise_distinct (map stat_of (dir_a ∷ dir_b ∷ dir_a ∷ []))
      then ok (record { paths = map some (dir_a ∷ dir_b ∷ dir_a ∷ []); ignored = 0 })
      else exit_failure)
copy_root_dir_paths-pairwise_distinct_example =
    copy_root_dir_paths-pairwise_distinct lstat_of stat_of (dir_a ∷ dir_b ∷ dir_a ∷ [])

same_root_twice : copy_root_dir_paths lstat_of stat_of (dir_a ∷ dir_b ∷ dir_a ∷ []) ≡ exit_failure
unfolding copy_root_dir_paths
same_root_twice = refl

abbrev stdio : Stdio ℕ
stdio = record {
  scan_word = λ s. elim s [ [] ↦ none | c ∷ cs ↦ some cs ];
  atoi = λ s. pos 0;
  write_file = λ k path lines. some k;
}

abbrev start : Start ℕ
start = record {
  opts = opt_x ∷ [];
  argv = dir_a ∷ dir_b ∷ [];
  lstat = lstat_of;
  lstat_again = stat_of;
  outside = 5;
}

-- "z /a" is typed, then "l", when the rename of the small kernel is there to be read.
abbrev turns : List Turn
turns =
    selected (some (b'z' ∷ b' ' ∷ b'/' ∷ b'a' ∷ 10 ∷ [])) (λ fd. false)
    ∷ selected (some (b'l' ∷ 10 ∷ [])) (λ fd. true)
    ∷ []

abbrev paths_after : Run (Session ℕ) → List FilePath
paths_after (ok s) = cached_paths s.monitor.cache
paths_after r = []

abbrev result_of : Option (Run (Session ℕ)) → Run (Session ℕ)
result_of none = undefined
result_of (some r) = r

the_run :
    main busy_kernel stdio 20 start turns ≡ some (result_of (main busy_kernel stdio 20 start turns))
unfolding main find_watch free_cache is_full add_watch_to_cache zap_subtree is_under strncpy
the_run = refl

main-IsKept_example :
    Holds (λ (s : Session ℕ). IsKept s.monitor) (result_of (main busy_kernel stdio 20 start turns))
main-IsKept_example = main-IsKept busy_kernel stdio 20 start turns the_run

-- The events are of a watch that was zapped, so that the cache is rebuilt from the roots.
rebuilt_paths :
    paths_after (result_of (main busy_kernel stdio 20 start turns))
    ≡ dir_a ∷ dir_x ∷ dir_b ∷ (b'/' ∷ b'b' ∷ b'/' ∷ b'x' ∷ []) ∷ []
unfolding main find_watch free_cache is_full add_watch_to_cache zap_subtree is_under strncpy
rebuilt_paths = refl
