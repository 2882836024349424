-- ===== src/Inotify/Startup.antt =====
-- copyRootDirPaths() of inotify_dtree.c: the checks of the pathnames on the command line. The answers
-- of the two rounds of lstat() are given; memory suffices.
pub mod Accepts
use linux_programming_interf.Common.{
  ℕ, Bool, true, false, ◌&&◌, ◌||◌, Option, none, some, List, [], ◌∷◌, ◌++◌, map, ◌==◌,
  if◌then◌else◌,
}
use linux_programming_interf.Inotify.Paths.{FilePath}
use linux_programming_interf.Inotify.Run.{Run, ok, exit_failure, ◌>>=◌}
use linux_programming_interf.Inotify.Kernel.{LstatResult, missing, directory, other_file}
use linux_programming_interf.Inotify.Roots.{Roots}

-- The fields of `struct stat` that tell two file system objects apart.
pub record FileId : Type 0 where
  pub st_ino : ℕ
  pub st_dev : ℕ

abbrev pub same_object : FileId → FileId → Bool
same_object a b = (a.st_ino == b.st_ino) && (a.st_dev == b.st_dev)

-- The inner loop, for `k < j`.
abbrev pub is_among : FileId → List FileId → Bool
is_among id [] = false
is_among id (k ∷ ks) = same_object id k || is_among id ks

-- The first loop.
unfoldable pub check_dirs : (FilePath → LstatResult) → List FilePath → Run (Unit {0})
check_dirs lstat [] = ok tt
check_dirs lstat (p ∷ ps) =
    let rest = check_dirs lstat ps in
    elim (lstat p) [ missing ↦ exit_failure | other_file ↦ exit_failure | directory ↦ rest ]

-- The second loop, with `rootDirStat[0 .. j)`.
unfoldable pub copy_stats :
    (FilePath → Option FileId) → List FileId → List FilePath → Run (List FileId)
copy_stats lstat stats [] = ok stats
copy_stats lstat stats (p ∷ ps) = elim (lstat p) [
  | none ↦ exit_failure
  | some id ↦
      let rest = copy_stats lstat (stats ++ id ∷ []) ps in
      if is_among id stats then exit_failure else rest
]

unfoldable pub copy_root_dir_paths :
    (FilePath → LstatResult) → (FilePath → Option FileId) → List FilePath → Run Roots
unfolding check_dirs copy_stats
copy_root_dir_paths lstat lstat_again argv = do
  checked ← check_dirs lstat argv
  stats ← copy_stats lstat_again [] argv
  ok (record { paths = map some argv; ignored = 0 })
