-- ===== src/Inotify/Paths/Under.antt =====
-- The pathname tests of inotify_dtree.c against what they mean: a pathname is under a directory if
-- it is that directory, or that directory followed by a slash and more.
use mathlib.Core.List.{append-nil}
use linux_programming_interf.Common.{
  ℕ, zero, suc, ◌+◌, ◌-◌, ◌≤◌, ◌<◌, ◌≡◌, refl, sym, ◌∙◌, ap, true, false, ◌&&◌, List, [], ◌∷◌, ◌++◌,
  ◌⊎◌, inl, inr, arith, Bool-cases, ◌==◌, length, take, drop, length-append,
}
use linux_programming_interf.Inotify.Paths.{
  FilePath, path_max, snprintf, strncpy, strcmp_eq, is_under, rewrite_path,
}

pub strcmp_eq_sound : (s t : List ℕ) → strcmp_eq s t ≡ true → s ≡ t
unfolding strcmp_eq
strcmp_eq_sound [] [] h = refl
strcmp_eq_sound [] (d ∷ t) h = cc
strcmp_eq_sound (c ∷ s) [] h = cc
strcmp_eq_sound (c ∷ s) (d ∷ t) h = ground (arith, strcmp_eq_sound s t)

pub strcmp_eq_self : (s : List ℕ) → strcmp_eq s s ≡ true
unfolding strcmp_eq
strcmp_eq_self [] = refl
strcmp_eq_self (c ∷ s) = ground (arith, strcmp_eq_self s)

-- `path` is `dir`, or an entry at some depth below it.
abbrev pub Below : FilePath → FilePath → Type 0
Below dir path = (path ≡ dir) ⊎ ((rest : List ℕ) × (path ≡ dir ++ b'/' ∷ rest))

is_under-cons :
    (c d : ℕ) (dir path : FilePath)
    → is_under (c ∷ dir) (d ∷ path) ≡ ((c == d) && is_under dir path)
unfolding is_under
is_under-cons c d dir path = ground arith

is_under_root : (d : ℕ) (path : FilePath) → is_under [] (d ∷ path) ≡ (d == b'/')
unfolding is_under
is_under_root d path = refl

-- The program's test decides it.
pub is_under-Below : (dir path : FilePath) → is_under dir path ≡ true → Below dir path
unfolding is_under
is_under-Below [] [] h = inl refl
is_under-Below [] (d ∷ path) h = inr (path, ground arith)
is_under-Below (c ∷ dir) [] h = cc
is_under-Below (c ∷ dir) (d ∷ path) h = ground (arith, is_under-Below dir path)

pub is_under_self : (dir : FilePath) → is_under dir dir ≡ true
unfolding is_under
is_under_self [] = refl
is_under_self (c ∷ dir) = ground (arith, is_under_self dir)

pub is_under_child : (dir rest : FilePath) → is_under dir (dir ++ b'/' ∷ rest) ≡ true
unfolding is_under
is_under_child [] rest = refl
is_under_child (c ∷ dir) rest = ground (arith, is_under_child dir rest)

drop-append : (xs ys : List ℕ) → drop (length xs) (xs ++ ys) ≡ ys
drop-append [] ys = refl
drop-append (x ∷ xs) ys = drop-append xs ys

take_all : (n : ℕ) (xs : List ℕ) → length xs ≤ n → take n xs ≡ xs
take_all zero [] h = refl
take_all zero (x ∷ xs) h = elim h [ ]
take_all (suc n) [] h = refl
take_all (suc n) (x ∷ xs) h = ap (λ r. x ∷ r) (take_all n xs (omega arith))

pub snprintf_whole : (s : FilePath) → length s < path_max → snprintf path_max s ≡ s
unfolding snprintf
snprintf_whole s h = take_all (path_max - 1) s (omega (arith, h))

-- What a rename of `full` to `new` makes of a pathname: the part behind `full` is kept, and a pathname
-- that is not under `full` stays.
abbrev pub Renamed : FilePath → FilePath → FilePath → FilePath → Type 0
Renamed full new path path' =
    ((rest : List ℕ) × Below full path × (path ≡ full ++ rest) × (path' ≡ new ++ rest))
    ⊎ (¬ Below full path × (path' ≡ path))

rewrite_path-under :
    (full new path : FilePath)
    → is_under full path ≡ true
    → rewrite_path full new path
      ≡ take path_max (take (path_max - 1) (new ++ drop (length full) path))
unfolding rewrite_path snprintf strncpy
rewrite_path-under full new path h = rw h

rewrite_path-other :
    (full new path : FilePath) → is_under full path ≡ false → rewrite_path full new path ≡ path
unfolding rewrite_path
rewrite_path-other full new path h = rw h

fits_twice : (xs : List ℕ) → length xs < path_max → take path_max (take (path_max - 1) xs) ≡ xs
fits_twice xs h =
    ap (take path_max) (take_all (path_max - 1) xs (omega arith))
    ∙ take_all path_max xs (omega arith)

rewrite_path-append :
    (full new rest : FilePath)
    → is_under full (full ++ rest) ≡ true
    → length new + length rest < path_max
    → rewrite_path full new (full ++ rest) ≡ new ++ rest
rewrite_path-append full new rest h fits =
    rewrite_path-under full new (full ++ rest) h
    ∙ ap (λ r. take path_max (take (path_max - 1) (new ++ r))) (drop-append full rest)
    ∙ fits_twice (new ++ rest) (omega (arith, length-append new rest))

Below-under : (dir path : FilePath) → Below dir path → is_under dir path ≡ true
Below-under dir path (inl e) = rw e (is_under_self dir)
Below-under dir path (inr (rest, e)) = rw e (is_under_child dir rest)

Renamed-append :
    (full new rest path : FilePath)
    → path ≡ full ++ rest
    → Below full path
    → is_under full path ≡ true
    → length new + length path < path_max
    → Renamed full new path (rewrite_path full new path)
Renamed-append full new rest path e below under fits = inl (
  rest,
  below,
  e,
  ap (rewrite_path full new) e
      ∙ rewrite_path-append full new rest (rw e at under)
          (omega (arith, ap (λ p. length p) e, length-append full rest)),
)

-- One cached pathname under rewriteCachedPaths(), if the new one is shorter than PATH_MAX.
pub rewrite_path-Renamed :
    (full new path : FilePath)
    → length new + length path < path_max
    → Renamed full new path (rewrite_path full new path)
rewrite_path-Renamed full new path fits = elim (Bool-cases (is_under full path)) [
  | inr other ↦
      inr (λ b. ground (arith, Below-under full path b), rewrite_path-other full new path other)
  | inl under ↦ elim (is_under-Below full path under) [
    | inl e ↦ Renamed-append full new [] path (e ∙ sym (append-nil full)) (inl e) under fits
    | inr (rest, e) ↦ Renamed-append full new (b'/' ∷ rest) path e (inr (rest, e)) under fits
  ]
]
