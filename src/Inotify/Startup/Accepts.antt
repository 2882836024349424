-- ===== src/Inotify/Startup/Accepts.antt =====
-- Which command lines copyRootDirPaths() accepts.
use linux_programming_interf.Common.{
  ◌≡◌, refl, ap, ◌∙◌, Bool, true, false, ◌&&◌, not, Option, none, some, List, [], ◌∷◌, ◌++◌, map,
  inl, inr, Bool-cases, Option-cases, arith, if◌then◌else◌,
}
use linux_programming_interf.Inotify.Paths.{FilePath}
use linux_programming_interf.Inotify.Run.{Run, ok, exit_failure, ◌>>=◌}
use linux_programming_interf.Inotify.Kernel.{LstatResult, missing, directory, other_file}
use linux_programming_interf.Inotify.Roots.{Roots}
use linux_programming_interf.Inotify.Startup.{
  FileId, same_object, is_among, check_dirs, copy_stats, copy_root_dir_paths,
}

abbrev is_directory : LstatResult → Bool
is_directory missing = false
is_directory directory = true
is_directory other_file = false

abbrev pub all_directories : (FilePath → LstatResult) → List FilePath → Bool
all_directories lstat [] = true
all_directories lstat (p ∷ ps) = is_directory (lstat p) && all_directories lstat ps

-- No pathname behind this one is for the same object; all can be read.
abbrev differs_from : FileId → Option FileId → Bool
differs_from id none = false
differs_from id (some k) = not (same_object id k)

abbrev pub all_differ : FileId → List (Option FileId) → Bool
all_differ id [] = true
all_differ id (k ∷ ks) = differs_from id k && all_differ id ks

abbrev pub pairwise_distinct : List (Option FileId) → Bool
pairwise_distinct [] = true
pairwise_distinct (none ∷ ids) = false
pairwise_distinct (some id ∷ ids) = all_differ id ids && pairwise_distinct ids

check_dirs-all_directories :
    (lstat : FilePath → LstatResult) (argv : List FilePath)
    → check_dirs lstat argv ≡ (if all_directories lstat argv then ok tt else exit_failure)
unfolding check_dirs
check_dirs-all_directories lstat [] = refl
check_dirs-all_directories lstat (p ∷ ps) = answered (lstat p) (check_dirs-all_directories lstat ps)
  where
    answered :
        (a : LstatResult)
        → check_dirs lstat ps ≡ (if all_directories lstat ps then ok tt else exit_failure)
        → elim a [
          | missing ↦ exit_failure
          | other_file ↦ exit_failure
          | directory ↦ check_dirs lstat ps
        ]
          ≡ (if is_directory a && all_directories lstat ps then ok tt else exit_failure)
    answered missing h = refl
    answered other_file h = refl
    answered directory h = h

-- All of the stats before are of other objects.
abbrev fresh_ids : List FileId → List (Option FileId) → Bool
fresh_ids [] ids = true
fresh_ids (k ∷ ks) ids = all_differ k ids && fresh_ids ks ids

fresh_ids-cons :
    (ks : List FileId) (id : FileId) (ids : List (Option FileId))
    → fresh_ids ks (some id ∷ ids) ≡ (not (is_among id ks) && fresh_ids ks ids)
fresh_ids-cons [] id ids = refl
fresh_ids-cons (k ∷ ks) id ids = let ih = fresh_ids-cons ks id ids in ground (arith, ih)

fresh_ids-snoc :
    (ks : List FileId) (id : FileId) (ids : List (Option FileId))
    → fresh_ids (ks ++ id ∷ []) ids ≡ (fresh_ids ks ids && all_differ id ids)
fresh_ids-snoc [] id ids = ground arith
fresh_ids-snoc (k ∷ ks) id ids = let ih = fresh_ids-snoc ks id ids in ground (arith, ih)

fresh_ids-nil : (ks : List FileId) → fresh_ids ks [] ≡ true
fresh_ids-nil [] = refl
fresh_ids-nil (k ∷ ks) = fresh_ids-nil ks

-- Where the second loop goes on, `r` is what follows.
copy_stats-fresh_ids :
    {A : Type 0} (lstat : FilePath → Option FileId) (ks : List FileId) (ps : List FilePath)
    (r : Run A)
    → (copy_stats lstat ks ps >>= λ stats. r) ≡ (
        if fresh_ids ks (map lstat ps) && pairwise_distinct (map lstat ps) then r else exit_failure)
unfolding copy_stats
copy_stats-fresh_ids lstat ks [] r = rw (fresh_ids-nil ks) refl
copy_stats-fresh_ids lstat ks (p ∷ ps) r = elim (Option-cases (lstat p)) [
  | inl unread ↦
      let never : (fresh_ids ks (none ∷ map lstat ps) && false) ≡ false = ground arith in
      rw (unread, copy_stats) (rw never refl)
  | inr (id, known) ↦
      let ids = map lstat ps in
      let ih = copy_stats-fresh_ids lstat (ks ++ id ∷ []) ps r in
      let before = fresh_ids-cons ks id ids in
      let behind = fresh_ids-snoc ks id ids in
      elim (Bool-cases (is_among id ks)) [
        | inl again ↦
            let never : (fresh_ids ks (some id ∷ ids) && pairwise_distinct (some id ∷ ids))
                ≡ false =
              ground (arith, before, again) in
            rw (known, copy_stats) (rw (again, never) refl)
        | inr new ↦
            let same : (fresh_ids ks (some id ∷ ids) && pairwise_distinct (some id ∷ ids))
                ≡ (fresh_ids (ks ++ id ∷ []) ids && pairwise_distinct ids) =
              ground (arith, before, behind, new) in
            rw (known, copy_stats) (rw (new, same) ih)
      ]
]

-- copyRootDirPaths, for any answers of lstat(): it makes the roots of the pathnames on the command line,
-- all of them monitored, if each is that of a directory at the first check, and can be read again and
-- has another i-node number or device than each pathname behind it; the program exits with failure
-- otherwise.
pub copy_root_dir_paths-pairwise_distinct :
    (lstat : FilePath → LstatResult) (lstat_again : FilePath → Option FileId) (argv : List FilePath)
    → copy_root_dir_paths lstat lstat_again argv ≡ (
        if all_directories lstat argv && pairwise_distinct (map lstat_again argv)
        then ok (record { paths = map some argv; ignored = 0 })
        else exit_failure)
unfolding copy_root_dir_paths
copy_root_dir_paths-pairwise_distinct lstat lstat_again argv =
    let roots : Roots = record { paths = map some argv; ignored = 0 } in
    let second = copy_stats-fresh_ids lstat_again [] argv (ok roots) in
    ap (λ c. c >>= λ checked. copy_stats lstat_again [] argv >>= λ stats. ok roots)
      (check_dirs-all_directories lstat argv)
    ∙ elim (Bool-cases (all_directories lstat argv)) [
      | inl dirs ↦ rw dirs second
      | inr not_all ↦ rw not_all refl
    ]
