-- ===== src/Common/Sums.antt =====
-- Sums over a list, and what changing one element does to them.
use Prim.Native.Nat.{ℕ, zero, suc, ◌+◌, ◌≤◌}
use mathlib.Core.Option.{some, some-injective}
use mathlib.Core.List.{List, [], ◌∷◌, ◌++◌}
use mathlib.Core.Path.{◌≡◌, ap}
use native.Mathlib.Omega.{arith}
use linux_programming_interf.Common.Lists.{get_elem?, set}

module _ {A : Type 0} where
  abbrev pub sum : (A → ℕ) → List A → ℕ
  sum f [] = 0
  sum f (x ∷ xs) = f x + sum f xs

  pub sum-append : (f : A → ℕ) (xs : List A) (x : A) → sum f (xs ++ x ∷ []) ≡ sum f xs + f x
  sum-append f [] x = omega arith
  sum-append f (y ∷ xs) x = omega (arith, sum-append f xs x)

  pub sum-set :
      (f : A → ℕ) (xs : List A) (i : ℕ) (x v : A)
      → get_elem? xs i ≡ some x
      → sum f (set xs i v) + f x ≡ sum f xs + f v
  sum-set f [] i x v h = cc (h)
  sum-set f (y ∷ xs) zero x v h =
      let same : f y ≡ f x = ap f (some-injective y x h) in omega (arith, same)
  sum-set f (y ∷ xs) (suc i) x v h = omega (arith, sum-set f xs i x v h)

  pub sum-elem :
      (f : A → ℕ) (xs : List A) (i : ℕ) (x : A) → get_elem? xs i ≡ some x → f x ≤ sum f xs
  sum-elem f [] i x h = cc (h)
  sum-elem f (y ∷ xs) zero x h =
      let same : f y ≡ f x = ap f (some-injective y x h) in omega (arith, same)
  sum-elem f (y ∷ xs) (suc i) x h = omega (arith, sum-elem f xs i x h)

  pub sum_mono : (f g : A → ℕ) (xs : List A) → ((x : A) → f x ≤ g x) → sum f xs ≤ sum g xs
  sum_mono f g [] h = omega arith
  sum_mono f g (x ∷ xs) h = omega (arith, h x, sum_mono f g xs h)
