-- ===== src/SvsemOp/Printed.antt =====
-- Operations that follow the usage text, and what is read from them.
use mathlib.Core.List.{append_assoc, append-nil}
use linux_programming_interf.Common.{
  ℕ, zero, suc, ◌%◌, ◌≤◌, ◌≡◌, ◌≢◌, refl, sym, ap, ◌∙◌, Bool, true, false, ◌||◌, Option, none, some,
  List, [], ◌∷◌, ◌++◌, map, ◌==◌, length, arith,
}
use linux_programming_interf.Common.Text.{CString, Lacks, Lacks-append}
use linux_programming_interf.Timers.Printed.{cut-with_rest}
use linux_programming_interf.SvsemOp.{
  max_semops, is_digit, starts_with_digit, read_flags, ends_op, with_value, with_sign, parse_op,
  parse_from, parse_ops,
}
use linux_programming_interf.SvsemOp.Texts.{
  Numeral, digits, all_digits, number, Sign, plus, minus, equals, sign_char, OpText, flags_text,
  op_text, ops_text, signed_short, op_of, IsNumeral, ZeroIfEquals, IsOp, AreOps, tail_text,
}

read_flags-flags_text :
    (n u : Bool) (t : Option CString)
    → read_flags (flags_text n u ++ tail_text t) false false ≡ (n, u, tail_text t)
unfolding read_flags
read_flags-flags_text true true none = refl
read_flags-flags_text true false none = refl
read_flags-flags_text false true none = refl
read_flags-flags_text false false none = refl
read_flags-flags_text true true (some rest) = refl
read_flags-flags_text true false (some rest) = refl
read_flags-flags_text false true (some rest) = refl
read_flags-flags_text false false (some rest) = refl

ends_op-tail_text : (t : Option CString) → ends_op (tail_text t) ≡ true
ends_op-tail_text none = refl
ends_op-tail_text (some rest) = refl

starts_with_digit-flags_text :
    (n u : Bool) (t : Option CString) → starts_with_digit (flags_text n u ++ tail_text t) ≡ false
starts_with_digit-flags_text true true t = refl
starts_with_digit-flags_text true false t = refl
starts_with_digit-flags_text false true t = refl
starts_with_digit-flags_text false false none = refl
starts_with_digit-flags_text false false (some rest) = refl

with_value-flags_text :
    (num value : ℕ) (s : Sign) (n u : Bool) (t : Option CString)
    → ZeroIfEquals s value
    → with_value num (sign_char s) (value, flags_text n u ++ tail_text t)
      ≡ some (record { sem_num = num; sem_op = signed_short s value; nowait = n; undo = u })
unfolding with_value
with_value-flags_text num value plus n u t h =
    rw (read_flags-flags_text n u t, ends_op-tail_text t) refl
with_value-flags_text num value minus n u t h =
    rw (read_flags-flags_text n u t, ends_op-tail_text t) refl
with_value-flags_text num value equals n u t h =
    rw (h, read_flags-flags_text n u t, ends_op-tail_text t) refl

digit-Lacks : (c : ℕ) → is_digit c ≡ true → c ≢ b','
digit-Lacks c h = (λ e. ground (arith, h, e))

all_digits-Lacks : (cs : CString) → all_digits cs ≡ true → Lacks b',' cs
all_digits-Lacks [] h = tt
all_digits-Lacks (c ∷ cs) h =
    (digit-Lacks c (ground (arith, h)), all_digits-Lacks cs (ground (arith, h)))

not_comma : (c : ℕ) → (c == b',') ≡ false → c ≢ b','
not_comma c differ = (λ e. ground (arith, differ, e))

flags_text-Lacks : (n u : Bool) → Lacks b',' (flags_text n u)
flags_text-Lacks true true = (not_comma b'n' refl, (not_comma b'u' refl, tt))
flags_text-Lacks true false = (not_comma b'n' refl, tt)
flags_text-Lacks false true = (not_comma b'u' refl, tt)
flags_text-Lacks false false = tt

sign_char-Lacks : (s : Sign) → sign_char s ≢ b','
sign_char-Lacks plus = not_comma b'+' refl
sign_char-Lacks minus = not_comma b'-' refl
sign_char-Lacks equals = not_comma b'=' refl

op_text-Lacks : (o : OpText) → IsOp o → Lacks b',' (op_text o)
op_text-Lacks o ((sem, h₁), (value, h₂), k) =
    Lacks-append b',' (digits o.sem)
      (sign_char o.sign ∷ (digits o.value ++ flags_text o.has_n o.has_u))
      (all_digits-Lacks (digits o.sem) sem)
      (
        sign_char-Lacks o.sign,
        Lacks-append b',' (digits o.value) (flags_text o.has_n o.has_u)
            (all_digits-Lacks (digits o.value) value) (flags_text-Lacks o.has_n o.has_u),
      )

is_sign-sign_char :
    (s : Sign) → (sign_char s == b'+' || sign_char s == b'-' || sign_char s == b'=') ≡ true
is_sign-sign_char plus = refl
is_sign-sign_char minus = refl
is_sign-sign_char equals = refl

-- The text of an operation with what stands behind it.
op_text-tail_text :
    (o : OpText) (t : Option CString)
    → op_text o ++ tail_text t
      ≡ digits o.sem
        ++ sign_char o.sign ∷ (digits o.value ++ (flags_text o.has_n o.has_u ++ tail_text t))
op_text-tail_text o t =
    append_assoc (digits o.sem) (sign_char o.sign ∷ (digits o.value ++ flags_text o.has_n o.has_u))
      (tail_text t)
    ∙ ap (λ r. digits o.sem ++ sign_char o.sign ∷ r)
        (append_assoc (digits o.value) (flags_text o.has_n o.has_u) (tail_text t))

module _ (strtol : CString → ℕ × CString)
    (strtol-digits : (n : Numeral) (rest : CString)
      → IsNumeral n
      → starts_with_digit rest ≡ false
      → strtol (digits n ++ rest) ≡ (number n, rest)) where
  with_sign-value :
      (o : OpText) (num : ℕ) (t : Option CString)
      → IsOp o
      → with_sign strtol num
          (sign_char o.sign ∷ (digits o.value ++ (flags_text o.has_n o.has_u ++ tail_text t)))
        ≡ some (record {
          sem_num = num;
          sem_op = signed_short o.sign (number o.value);
          nowait = o.has_n;
          undo = o.has_u;
        })
  unfolding with_sign
  with_sign-value o num t (sem, value, zero_if) =
      let digit : is_digit o.value.first ≡ true = ground (arith, value.0) in
      let read =
        strtol-digits o.value (flags_text o.has_n o.has_u ++ tail_text t) value
          (starts_with_digit-flags_text o.has_n o.has_u t) in
      rw (is_sign-sign_char o.sign, digit, read)
        (with_value-flags_text num (number o.value) o.sign o.has_n o.has_u t zero_if)

  starts_with_digit-sign_char :
      (s : Sign) (cs : CString) → starts_with_digit (sign_char s ∷ cs) ≡ false
  starts_with_digit-sign_char plus cs = refl
  starts_with_digit-sign_char minus cs = refl
  starts_with_digit-sign_char equals cs = refl

  parse_op-op_text :
      (o : OpText) (t : Option CString)
      → IsOp o
      → parse_op strtol (op_text o ++ tail_text t) ≡ some (op_of o)
  unfolding parse_op
  parse_op-op_text o t h =
      let behind = digits o.value ++ (flags_text o.has_n o.has_u ++ tail_text t) in
      let digit : is_digit o.sem.first ≡ true = ground (arith, h.0.0) in
      let read =
        strtol-digits o.sem (sign_char o.sign ∷ behind) h.0
          (starts_with_digit-sign_char o.sign behind) in
      ap (parse_op strtol) (op_text-tail_text o t)
      ∙ rw (digit, read) (with_sign-value o (number o.sem % 65536) t h)

  parse_from-ops_text :
      (left : ℕ) (o : OpText) (ps : List OpText)
      → AreOps (o ∷ ps)
      → length (o ∷ ps) ≤ left
      → parse_from strtol left (ops_text o ps) ≡ some (map op_of (o ∷ ps))
  unfolding parse_from
  parse_from-ops_text zero o ps h fits = absurd (let no : ⊥ = omega (arith, fits) in no)
  parse_from-ops_text (suc left) o [] (h, hs) fits =
      let alone = cut-with_rest b',' (op_text o) none (op_text-Lacks o h) in
      let first = ap (parse_op strtol) (sym (append-nil (op_text o))) ∙ parse_op-op_text o none h in
      rw (alone, first) refl
  parse_from-ops_text (suc left) o (p ∷ ps) (h, hs) fits =
      let split = cut-with_rest b',' (op_text o) (some (ops_text p ps)) (op_text-Lacks o h) in
      let first = parse_op-op_text o (some (ops_text p ps)) h in
      let rest = parse_from-ops_text left p ps hs (omega (arith, fits)) in
      rw (split, first, rest) refl

  -- parseOps, for a strtol() that reads the digits at the front of a text up to 2 ^ 63 - 1: an argument of
  -- at most MAX_SEMOPS operations of the documented form is read as those operations in order, each
  -- with its flags, and with its semaphore number and its signed value as far as the 16 bits of the
  -- fields go. Behind '=' the value has to be 0 in those bits.
  pub parse_ops-ops_text :
      (o : OpText) (ps : List OpText)
      → AreOps (o ∷ ps)
      → length (o ∷ ps) ≤ max_semops
      → parse_ops strtol (ops_text o ps) ≡ some (map op_of (o ∷ ps))
  unfolding parse_ops
  parse_ops-ops_text o ps h fits = parse_from-ops_text max_semops o ps h fits
