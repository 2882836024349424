-- ===== src/Common/Text.antt =====
-- C strings: the bytes, without the null at the end.
use Prim.Native.Nat.{ℕ}
use mathlib.Core.Bool.{true, false}
use mathlib.Core.List.{List, [], ◌∷◌, ◌++◌}
use mathlib.Core.Logic.{◌≢◌}
use mathlib.Core.Path.{◌≡◌, refl}
use native.Mathlib.Omega.{arith}
use linux_programming_interf.Common.Tests.{◌==◌, if◌then◌else◌}

abbrev pub CString : Type 0
CString = List ℕ

abbrev pub in_front : ℕ → List CString → List CString
in_front c [] = (c ∷ []) ∷ []
in_front c (p ∷ ps) = (c ∷ p) ∷ ps

-- The parts of a string between the occurrences of a character.
unfoldable pub split_on : ℕ → CString → List CString
split_on c [] = [] ∷ []
split_on c (x ∷ xs) = let ps = split_on c xs in if x == c then [] ∷ ps else in_front x ps

abbrev pub Lacks : ℕ → CString → Type 0
Lacks c [] = Unit
Lacks c (x ∷ xs) = (x ≢ c) × Lacks c xs

pub split_on-Lacks : (c : ℕ) (xs : CString) → Lacks c xs → split_on c xs ≡ xs ∷ []
unfolding split_on
split_on-Lacks c [] h = refl
split_on-Lacks c (x ∷ xs) (other, h) =
    let differ : (x == c) ≡ false = ground (arith, other) in rw (differ, split_on-Lacks c xs h) refl

pub split_on-append :
    (c : ℕ) (xs ys : CString) → Lacks c xs → split_on c (xs ++ c ∷ ys) ≡ xs ∷ split_on c ys
unfolding split_on
split_on-append c [] ys h = let same : (c == c) ≡ true = ground arith in rw same refl
split_on-append c (x ∷ xs) ys (other, h) =
    let differ : (x == c) ≡ false = ground (arith, other) in
    rw (differ, split_on-append c xs ys h) refl

pub Lacks-append : (c : ℕ) (xs ys : CString) → Lacks c xs → Lacks c ys → Lacks c (xs ++ ys)
Lacks-append c [] ys h k = k
Lacks-append c (x ∷ xs) ys (other, h) k = (other, Lacks-append c xs ys h k)

-- A string as it is read up to its null byte.
abbrev pub until_null : List ℕ → CString
until_null [] = []
until_null (c ∷ cs) = let rest = until_null cs in if c == 0 then [] else c ∷ rest

pub Lacks-split : (c : ℕ) (xs ys : List ℕ) → Lacks c (xs ++ ys) → Lacks c xs × Lacks c ys
Lacks-split c [] ys h = (tt, h)
Lacks-split c (x ∷ xs) ys (other, h) =
    let (first, second) = Lacks-split c xs ys h in ((other, first), second)

pub until_null-Lacks : (xs : List ℕ) → Lacks 0 xs → until_null xs ≡ xs
until_null-Lacks [] h = refl
until_null-Lacks (x ∷ xs) (other, h) =
    let printable : (x == 0) ≡ false = ground (arith, other) in
    rw (printable, until_null-Lacks xs h) refl
