-- ===== src/Inotify/Roots.antt =====
-- The root directories of inotify_dtree.c: `rootDirPaths`, in which a root that is no longer monitored
-- is NULL, and the number of those.
pub mod Laws
use linux_programming_interf.Common.{
  ℕ, ◌+◌, Bool, true, false, Option, none, some, List, [], ◌∷◌, ◌==◌, if◌then◌else◌, length, set,
}
use linux_programming_interf.Inotify.Paths.{FilePath, strcmp_eq}
use linux_programming_interf.Inotify.Run.{Run, ok, exit_success, exit_failure}

pub record Roots : Type 0 where
  pub paths : List (Option FilePath)
  pub ignored : ℕ

-- findRootDirPath(): the index in place of the element's address.
unfoldable pub find_root_dir_path : FilePath → ℕ → List (Option FilePath) → Option ℕ
find_root_dir_path path j [] = none
find_root_dir_path path j (none ∷ ps) = find_root_dir_path path (j + 1) ps
find_root_dir_path path j (some p ∷ ps) =
    let rest = find_root_dir_path path (j + 1) ps in if strcmp_eq path p then some j else rest

-- isRootDirPath()
unfoldable pub is_root_dir_path : FilePath → Roots → Bool
is_root_dir_path path r = elim (find_root_dir_path path 0 r.paths) [ none ↦ false | some j ↦ true ]

-- zapRootDirPath()
unfoldable pub zap_root_dir_path : FilePath → Roots → Run Roots
zap_root_dir_path path r = elim (find_root_dir_path path 0 r.paths) [
  | none ↦ exit_failure
  | some j ↦
      let ignored = r.ignored + 1 in
      if ignored == length r.paths
      then exit_success
      else ok (record { paths = set r.paths j none; ignored = ignored })
]
