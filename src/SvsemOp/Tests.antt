-- ===== src/SvsemOp/Tests.antt =====
-- Runs of the operation parser, and its theorem at a concrete argument.
use linux_programming_interf.Common.{
  ℕ, ◌+◌, ◌-◌, ◌*◌, ◌≡◌, refl, true, false, some, [], ◌∷◌, ◌++◌, map, arith, if◌then◌else◌,
}
use linux_programming_interf.Common.Text.{CString}
use linux_programming_interf.SvsemOp.{is_digit, starts_with_digit, parse_ops}
use linux_programming_interf.SvsemOp.Texts.{
  Numeral, digits, all_digits, number_from, number, plus, minus, IsNumeral, OpText, ops_text, op_of,
}
use linux_programming_interf.SvsemOp.Main.{main}
use linux_programming_interf.SvsemOp.Runs.{ArgText, arg_text, in_turn, main-in_turn}
use linux_programming_interf.SvsemOp.Printed.{parse_ops-ops_text}

-- The number at the front of a text, behind the digits read so far.
abbrev scan : ℕ → CString → ℕ × CString
scan n [] = (n, [])
scan n (c ∷ cs) =
    let more = scan (n * 10 + (c - b'0')) cs in if is_digit c then more else (n, c ∷ cs)

scan-end : (n : ℕ) (rest : CString) → starts_with_digit rest ≡ false → scan n rest ≡ (n, rest)
scan-end n [] h = refl
scan-end n (c ∷ cs) h = rw h refl

scan-append :
    (n : ℕ) (ds rest : CString)
    → all_digits ds ≡ true
    → starts_with_digit rest ≡ false
    → scan n (ds ++ rest) ≡ (number_from n ds, rest)
scan-append n [] rest h k = scan-end n rest k
scan-append n (d ∷ ds) rest h k =
    let digit : is_digit d ≡ true = ground (arith, h) in
    rw digit (scan-append (n * 10 + (d - b'0')) ds rest (ground (arith, h)) k)

scan-digits :
    (n : Numeral) (rest : CString)
    → IsNumeral n
    → starts_with_digit rest ≡ false
    → scan 0 (digits n ++ rest) ≡ (number n, rest)
scan-digits n rest h k = scan-append 0 (digits n) rest h.0 k

-- "12+1n"
abbrev up : OpText
up = record {
  sem = record { first = b'1'; others = b'2' ∷ [] };
  sign = plus;
  value = record { first = b'1'; others = [] };
  has_n = true;
  has_u = false;
}

-- "0-2u"
abbrev down : OpText
down = record {
  sem = record { first = b'0'; others = [] };
  sign = minus;
  value = record { first = b'2'; others = [] };
  has_n = false;
  has_u = true;
}

parse_ops-ops_text_example :
    parse_ops (scan 0) (ops_text up (down ∷ [])) ≡ some (map op_of (up ∷ down ∷ []))
parse_ops-ops_text_example =
    parse_ops-ops_text (scan 0) scan-digits up (down ∷ [])
      (
        ((refl, omega arith), (refl, omega arith), tt),
        (((refl, omega arith), (refl, omega arith), tt), tt),
      )
      (omega arith)

-- "0+65535" is read as "0-1".
abbrev high : OpText
high = record {
  sem = record { first = b'0'; others = [] };
  sign = plus;
  value = record { first = b'6'; others = b'5' ∷ b'5' ∷ b'3' ∷ b'5' ∷ [] };
  has_n = false;
  has_u = false;
}

abbrev one_less : OpText
one_less = record high { sign = minus; value = record { first = b'1'; others = [] } }

high-one_less : parse_ops (scan 0) (ops_text high []) ≡ parse_ops (scan 0) (ops_text one_less [])
unfolding parse_ops
high-one_less = refl

abbrev two_ops : ArgText
two_ops = record { first = up; others = down ∷ [] }

-- A semaphore set that counts the calls.
main-in_turn_example :
    main
      (scan 0)
      (λ name. some 9)
      (λ calls semid sops. some (calls + 1))
      ((b'9' ∷ []) ∷ map arg_text (two_ops ∷ []))
      0
    ≡ in_turn (λ calls semid sops. some (calls + 1)) 9 (two_ops ∷ []) 0
main-in_turn_example =
    main-in_turn (scan 0) (λ name. some 9) (λ calls semid sops. some (calls + 1)) 9 (b'9' ∷ [])
      (two_ops ∷ []) 0 scan-digits refl refl
      (
        (
          (
            ((refl, omega arith), (refl, omega arith), tt),
            (((refl, omega arith), (refl, omega arith), tt), tt),
          ),
          omega arith,
        ),
        tt,
      )
