-- ===== src/Inotify/Run.antt =====
-- How a function of inotify_dtree.c ends: with a value, or with the process.
-- `undefined` is the use of a variable that was never set.
use mathlib.Core.Path.{subst}
use linux_programming_interf.Common.{Bool, true, false, if◌then◌else◌, ◌≡◌}

pub data Run (A : Type 0) : Type 0 where
  ok : A → Run A
  exit_success : Run A
  exit_failure : Run A
  aborted : Run A
  undefined : Run A

infixl 5 ◌>>=◌
abbrev pub ◌>>=◌ : {A B : Type 0} → Run A → (A → Run B) → Run B
ok a >>= f = f a
exit_success >>= f = exit_success
exit_failure >>= f = exit_failure
aborted >>= f = aborted
undefined >>= f = undefined

-- A property of the value, where there is one.
pub data Holds {A : Type 0} (P : A → Type 0) : Run A → Type 0 where
  holds : {a : A} → P a → Holds P (ok a)
  succeeds : Holds P exit_success
  fails : Holds P exit_failure
  aborts : Holds P aborted
  strays : Holds P undefined

module _ {A : Type 0} {P : A → Type 0} where
  pub Holds-bind :
      {B : Type 0} {Q : B → Type 0} {r : Run A} {f : A → Run B}
      → Holds P r
      → ((a : A) → P a → Holds Q (f a))
      → Holds Q (r >>= f)
  Holds-bind (holds p) next = next _ p
  Holds-bind succeeds next = succeeds
  Holds-bind fails next = fails
  Holds-bind aborts next = aborts
  Holds-bind strays next = strays

  pub Holds-if : (b : Bool) {r s : Run A} → Holds P r → Holds P s → Holds P (if b then r else s)
  Holds-if true h k = h
  Holds-if false h k = k

  pub Holds-ok : (a : A) {r : Run A} → Holds P r → r ≡ ok a → P a
  Holds-ok a (holds p) e = subst P (cc) p
  Holds-ok a succeeds e = cc
  Holds-ok a fails e = cc
  Holds-ok a aborts e = cc
  Holds-ok a strays e = cc
