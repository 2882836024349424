-- ===== src/Common/Memory.antt =====
-- A C array in memory: a write past its end is a fault, the `none` of `store`.
use Prim.Native.Nat.{ℕ, zero, suc}
use mathlib.Core.Path.{◌≡◌, refl}
use mathlib.Core.Option
use mathlib.Core.Option.{Option, none, some}
use mathlib.Core.List.{List, [], ◌∷◌, ◌++◌}
use linux_programming_interf.Common.Lists.{length}

-- `mem[i] = v`
unfoldable pub store {ℓ} : {A : Type ℓ} → List A → ℕ → A → Option (List A)
store [] i v = none
store (x ∷ xs) zero v = some (v ∷ xs)
store (x ∷ xs) (suc i) v = Option.map (λ ys. x ∷ ys) (store xs i v)

-- A write just behind a prefix replaces the first element that follows it.
pub store-append {ℓ} :
    {A : Type ℓ} (ps : List A) (x v : A) (tail : List A)
    → store (ps ++ x ∷ tail) (length ps) v ≡ some (ps ++ v ∷ tail)
unfolding store
store-append [] x v tail = refl
store-append (p ∷ ps) x v tail = rw (store-append ps x v tail)
