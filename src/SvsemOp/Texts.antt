-- ===== src/SvsemOp/Texts.antt =====
-- The texts of semaphore operations that the usage text of svsem_op.c describes, and their meaning.
use linux_programming_interf.Common.{
  ℕ, ◌+◌, ◌-◌, ◌*◌, ◌%◌, ◌^◌, ◌<◌, ◌≡◌, Bool, true, false, ◌&&◌, Option, none, some, List, [], ◌∷◌,
  ◌++◌,
}
use linux_programming_interf.Common.Text.{CString}
use linux_programming_interf.SvsemOp.{Sembuf, is_digit, to_short, negated}

-- A number in decimal: a digit, and those behind it.
pub record Numeral : Type 0 where
  pub first : ℕ
  pub others : List ℕ

abbrev pub digits : Numeral → CString
digits n = n.first ∷ n.others

abbrev pub all_digits : CString → Bool
all_digits [] = true
all_digits (c ∷ cs) = is_digit c && all_digits cs

abbrev pub number_from : ℕ → CString → ℕ
number_from n [] = n
number_from n (c ∷ cs) = number_from (n * 10 + (c - b'0')) cs

abbrev pub number : Numeral → ℕ
number n = number_from 0 (digits n)

pub data Sign : Type 0 where
  plus minus equals : Sign

abbrev pub sign_char : Sign → ℕ
sign_char plus = b'+'
sign_char minus = b'-'
sign_char equals = b'='

-- "<sem#>{+|-}<value>[n][u]" or "<sem#>=0[n]"
pub record OpText : Type 0 where
  pub sem : Numeral
  pub sign : Sign
  pub value : Numeral
  pub has_n : Bool
  pub has_u : Bool

abbrev pub flags_text : Bool → Bool → CString
flags_text true true = b'n' ∷ b'u' ∷ []
flags_text true false = b'n' ∷ []
flags_text false true = b'u' ∷ []
flags_text false false = []

abbrev pub op_text : OpText → CString
op_text o = digits o.sem ++ sign_char o.sign ∷ (digits o.value ++ flags_text o.has_n o.has_u)

-- The operations of one argument, with commas between them.
abbrev pub ops_text : OpText → List OpText → CString
ops_text o [] = op_text o
ops_text o (p ∷ ps) = op_text o ++ b',' ∷ ops_text p ps

abbrev pub signed_short : Sign → ℕ → ℕ
signed_short plus n = to_short n
signed_short minus n = negated (to_short n)
signed_short equals n = to_short n

-- What is asked: the numbers as far as their 16 bits go.
abbrev pub op_of : OpText → Sembuf
op_of o = record {
  sem_num = number o.sem % 65536;
  sem_op = signed_short o.sign (number o.value);
  nowait = o.has_n;
  undo = o.has_u;
}

abbrev pub IsNumeral : Numeral → Type 0
IsNumeral n = (all_digits (digits n) ≡ true) × (number n < 2 ^ 63)

-- Behind '=' the value is 0 in a short.
abbrev pub ZeroIfEquals : Sign → ℕ → Type 0
ZeroIfEquals plus n = Unit
ZeroIfEquals minus n = Unit
ZeroIfEquals equals n = to_short n ≡ 0

abbrev pub IsOp : OpText → Type 0
IsOp o = IsNumeral o.sem × IsNumeral o.value × ZeroIfEquals o.sign (number o.value)

abbrev pub AreOps : List OpText → Type 0
AreOps [] = Unit
AreOps (o ∷ os) = IsOp o × AreOps os

-- What stands behind an operation: nothing, or a comma and more of them.
abbrev pub tail_text : Option CString → CString
tail_text none = []
tail_text (some rest) = b',' ∷ rest
