-- ===== src/Inotify/Roots/Laws.antt =====
-- The list of root directories: what zapRootDirPath() leaves, and when it ends the program.
use native.Mathlib.Nat.{zero-add}
use native.Mathlib.Decide.{ℕ_discrete}
use linux_programming_interf.Common.{
  ℕ, suc, ◌+◌, ◌<◌, ◌≡◌, refl, ◌∙◌, ◌≢◌, true, false, Option, none, some, List, [], ◌∷◌, inl, inr,
  arith, Bool-cases, Option-cases, length, set, length-set,
}
use linux_programming_interf.Inotify.Paths.{FilePath, strcmp_eq}
use linux_programming_interf.Inotify.Run.{Run, ok, exit_success, exit_failure, aborted, undefined}
use linux_programming_interf.Inotify.Roots.{
  Roots, find_root_dir_path, is_root_dir_path, zap_root_dir_path,
}

-- The roots that are no longer monitored.
unfoldable pub zapped : List (Option FilePath) → ℕ
zapped [] = 0
zapped (none ∷ ps) = suc (zapped ps)
zapped (some p ∷ ps) = zapped ps

-- `ignoreRootDirs` counts them, and some root is left.
pub record IsCounted (r : Roots) : Type 0 where
  pub counted : r.ignored ≡ zapped r.paths
  pub left : r.ignored < length r.paths

zapped-set :
    (path : FilePath) (ps : List (Option FilePath)) (j i : ℕ)
    → find_root_dir_path path j ps ≡ some i
    → (d : ℕ) × (i ≡ j + d) × (zapped (set ps d none) ≡ suc (zapped ps))
unfolding find_root_dir_path zapped
zapped-set path [] j i h = cc
zapped-set path (none ∷ ps) j i h =
    let (d, e, z) = zapped-set path ps (j + 1) i h in (suc d, omega arith, omega arith)
zapped-set path (some p ∷ ps) j i h = elim (Bool-cases (strcmp_eq path p)) [
  | inl hit ↦ (0, ground arith, refl)
  | inr miss ↦
      let (d, e, z) = zapped-set path ps (j + 1) i (rw miss at h) in (suc d, omega arith, z)
]

zapped-find :
    (path : FilePath) (r : Roots) (i : ℕ)
    → find_root_dir_path path 0 r.paths ≡ some i
    → zapped (set r.paths i none) ≡ suc (zapped r.paths)
zapped-find path r i h = let (d, e, z) = zapped-set path r.paths 0 i h in rw (e ∙ zero-add d) z

abbrev zapped_roots : Roots → ℕ → Roots
zapped_roots r i = record { paths = set r.paths i none; ignored = r.ignored + 1 }

-- The two branches of zapRootDirPath() where the pathname is a root.
zap-last :
    (path : FilePath) (r : Roots) (i : ℕ)
    → find_root_dir_path path 0 r.paths ≡ some i
    → r.ignored + 1 ≡ length r.paths
    → zap_root_dir_path path r ≡ exit_success
unfolding zap_root_dir_path
zap-last path r i h e = rw (h, zap_root_dir_path) (ground arith)

zap-more :
    (path : FilePath) (r : Roots) (i : ℕ)
    → find_root_dir_path path 0 r.paths ≡ some i
    → r.ignored + 1 ≢ length r.paths
    → zap_root_dir_path path r ≡ ok (zapped_roots r i)
unfolding zap_root_dir_path
zap-more path r i h e = rw (h, zap_root_dir_path) (ground arith)

zapped_roots-IsCounted :
    (path : FilePath) (r : Roots) (i : ℕ)
    → IsCounted r
    → find_root_dir_path path 0 r.paths ≡ some i
    → r.ignored + 1 ≢ length r.paths
    → IsCounted (zapped_roots r i)
zapped_roots-IsCounted path r i c h e =
    omega (arith, zapped-find path r i h, length-set r.paths i none)

is_root-found :
    (path : FilePath) (r : Roots) (i : ℕ)
    → find_root_dir_path path 0 r.paths ≡ some i
    → is_root_dir_path path r ≡ true
unfolding is_root_dir_path
is_root-found path r i h = rw (h, is_root_dir_path)

zap-missing :
    (path : FilePath) (r : Roots)
    → find_root_dir_path path 0 r.paths ≡ none
    → (zap_root_dir_path path r ≡ exit_failure) × (is_root_dir_path path r ≡ false)
unfolding zap_root_dir_path is_root_dir_path
zap-missing path r h = (rw (h, zap_root_dir_path), rw (h, is_root_dir_path))

-- How zapRootDirPath() ends.
abbrev pub Zapping : FilePath → Roots → Run Roots → Type 0
Zapping path r (ok r') =
    (is_root_dir_path path r ≡ true)
    × (r.ignored + 1 < length r.paths)
    × IsCounted r'
    × (r'.ignored ≡ r.ignored + 1)
Zapping path r exit_success = (is_root_dir_path path r ≡ true) × (r.ignored + 1 ≡ length r.paths)
Zapping path r exit_failure = is_root_dir_path path r ≡ false
Zapping path r aborted = ⊥
Zapping path r undefined = ⊥

-- zapRootDirPath() keeps the count of the roots that are no longer monitored, and goes on with one
-- more of them only while some root is left; it ends the program with success only at the last
-- root, and with failure only where the pathname is no root that is monitored.
pub zap_root_dir_path-Zapping :
    (path : FilePath) (r : Roots) → IsCounted r → Zapping path r (zap_root_dir_path path r)
zap_root_dir_path-Zapping path r c = elim (Option-cases (find_root_dir_path path 0 r.paths)) [
  | inl missing ↦ let (e, f) = zap-missing path r missing in rw e f
  | inr (i, found) ↦ elim (ℕ_discrete (r.ignored + 1) (length r.paths)) [
    | yes e ↦ rw (zap-last path r i found e) (is_root-found path r i found, e)
    | no ne ↦ rw (zap-more path r i found ne) (
      is_root-found path r i found,
      omega (arith, c.left),
      zapped_roots-IsCounted path r i c found ne,
      refl,
    )
  ]
]
