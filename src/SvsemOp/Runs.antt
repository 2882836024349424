-- ===== src/SvsemOp/Runs.antt =====
-- The calls of semop() for a command line of the documented form.
use linux_programming_interf.Common.{
  ℕ, ◌≤◌, ◌≡◌, refl, false, Option, none, some, List, [], ◌∷◌, ◌++◌, map, length, inl, inr,
  Option-cases,
}
use linux_programming_interf.Common.Text.{CString}
use linux_programming_interf.Acl.{same_text}
use linux_programming_interf.SvsemOp.{Sembuf, max_semops, starts_with_digit}
use linux_programming_interf.SvsemOp.Texts.{
  Numeral, digits, number, OpText, ops_text, op_of, IsNumeral, AreOps,
}
use linux_programming_interf.SvsemOp.Printed.{parse_ops-ops_text}
use linux_programming_interf.SvsemOp.Main.{MainEnd, succeeded, failed, help, each_arg, main}

-- An argument: one operation or more.
pub record ArgText : Type 0 where
  pub first : OpText
  pub others : List OpText

abbrev pub arg_text : ArgText → CString
arg_text a = ops_text a.first a.others

abbrev pub AreArgs : List ArgText → Type 0
AreArgs [] = Unit
AreArgs (a ∷ args) =
    (AreOps (a.first ∷ a.others) × (length (a.first ∷ a.others) ≤ max_semops)) × AreArgs args

abbrev pub or_failed : {S : Type 0} → S → Option S → (S → MainEnd S) → MainEnd S
or_failed s none next = failed s
or_failed s (some s') next = next s'

-- One call of semop() for each argument, until one fails.
abbrev pub in_turn :
    {S : Type 0} → (S → ℕ → List Sembuf → Option S) → ℕ → List ArgText → S → MainEnd S
in_turn semop semid [] s = succeeded s
in_turn semop semid (a ∷ args) s =
    or_failed s (semop s semid (map op_of (a.first ∷ a.others))) (in_turn semop semid args)

each_arg-in_turn :
    {S : Type 0} (strtol : CString → ℕ × CString) (get_int : CString → Option ℕ)
    (semop : S → ℕ → List Sembuf → Option S) (semid : ℕ) (name : CString) (args : List ArgText)
    (s : S)
    → ((n : Numeral) (rest : CString)
        → IsNumeral n
        → starts_with_digit rest ≡ false
        → strtol (digits n ++ rest) ≡ (number n, rest))
    → get_int name ≡ some semid
    → AreArgs args
    → each_arg strtol get_int semop name (map arg_text args) s ≡ in_turn semop semid args s
unfolding each_arg
each_arg-in_turn strtol get_int semop semid name [] s reads known h = refl
each_arg-in_turn strtol get_int semop semid name (a ∷ args) s reads known ((ops, few), h) =
    rw (parse_ops-ops_text strtol reads a.first a.others ops few, known)
      (elim (Option-cases (semop s semid (map op_of (a.first ∷ a.others)))) [
        | inl fails ↦ rw fails refl
        | inr (s', e) ↦
            rw e (each_arg-in_turn strtol get_int semop semid name args s' reads known h)
      ])

-- For a strtol() that reads the digits at the front of a text up to 2 ^ 63 - 1, an identifier other
-- than "--help" that getInt() reads, and arguments that are each at most MAX_SEMOPS operations of the
-- documented form, main calls semop() once for each argument with its operations in their order, and
-- stops with a failure at the first call that fails.
pub main-in_turn :
    {S : Type 0} (strtol : CString → ℕ × CString) (get_int : CString → Option ℕ)
    (semop : S → ℕ → List Sembuf → Option S) (semid : ℕ) (name : CString) (args : List ArgText)
    (s : S)
    → ((n : Numeral) (rest : CString)
        → IsNumeral n
        → starts_with_digit rest ≡ false
        → strtol (digits n ++ rest) ≡ (number n, rest))
    → get_int name ≡ some semid
    → same_text name help ≡ false
    → AreArgs args
    → main strtol get_int semop (name ∷ map arg_text args) s ≡ in_turn semop semid args s
unfolding main
main-in_turn strtol get_int semop semid name args s reads known no_help h =
    rw no_help (each_arg-in_turn strtol get_int semop semid name args s reads known h)
