-- ===== src/SvsemOp.antt =====
-- book-src/svsem/svsem_op.c: the System V semaphore operations of its command line. strtol() is a
-- parameter, with the number and the text behind it, for texts that begin with a digit.
pub mod Printed
pub mod Texts
pub mod Main
pub mod Runs
mod Tests
use linux_programming_interf.Common.{
  ℕ, zero, suc, ◌-◌, ◌%◌, Bool, true, false, ◌&&◌, ◌||◌, not, Option, none, some, List, [], ◌∷◌,
  leb, ◌==◌, if◌then◌else◌,
}
use linux_programming_interf.Common.Text.{CString}
use linux_programming_interf.Timers.{cut}

-- `struct sembuf`: `sem_num` is an unsigned short, `sem_op` has the 16 bits of a short, and the flags
-- are IPC_NOWAIT and SEM_UNDO.
pub record Sembuf : Type 0 where
  pub sem_num : ℕ
  pub sem_op : ℕ
  pub nowait : Bool
  pub undo : Bool

abbrev pub max_semops : ℕ
max_semops = 1000

abbrev pub is_digit : ℕ → Bool
is_digit c = leb b'0' c && leb c b'9'

abbrev pub starts_with_digit : CString → Bool
starts_with_digit [] = false
starts_with_digit (c ∷ cs) = is_digit c

-- The value of a number in a short, in 16 bits.
abbrev pub to_short : ℕ → ℕ
to_short n = n % 65536

-- `sem_op = - sem_op`
abbrev pub negated : ℕ → ℕ
negated n = (65536 - n) % 65536

-- The loop over the flags, with what it stops at.
unfoldable pub read_flags : CString → Bool → Bool → Bool × Bool × CString
read_flags [] nowait undo = (nowait, undo, [])
read_flags (c ∷ cs) nowait undo =
    let with_nowait = read_flags cs true undo in
    let with_undo = read_flags cs nowait true in
    if c == b'n' then with_nowait else if c == b'u' then with_undo else (nowait, undo, c ∷ cs)

-- `*flags == ',' || *flags == '\0'`
abbrev pub ends_op : CString → Bool
ends_op [] = true
ends_op (c ∷ cs) = c == b','

-- The operation's end, from the flags on.
abbrev pub with_flags : ℕ → ℕ → Bool × Bool × CString → Option Sembuf
with_flags num op (nowait, undo, rest) =
    if ends_op rest
    then some (record { sem_num = num; sem_op = op; nowait = nowait; undo = undo })
    else none

-- From the value on, whose sign is given.
unfoldable pub with_value : ℕ → ℕ → ℕ × CString → Option Sembuf
unfolding read_flags
with_value num sign (value, flags) =
    let op = to_short value in
    let plain = with_flags num op (read_flags flags false false) in
    if sign == b'-'
    then with_flags num (negated op) (read_flags flags false false)
    else if sign == b'=' && not (op == 0)
    then none
    else plain

module _ (strtol : CString → ℕ × CString) where
  -- From the sign on.
  unfoldable pub with_sign : ℕ → CString → Option Sembuf
  unfolding with_value
  with_sign num [] = none
  with_sign num (sign ∷ text) =
      if not (sign == b'+' || sign == b'-' || sign == b'=')
      then none
      else if not (starts_with_digit text)
      then none
      else with_value num sign (strtol text)

  abbrev pub with_number : ℕ × CString → Option Sembuf
  with_number (num, rest) = with_sign (num % 65536) rest

  -- One round of the loop; `none` ends the program with a message.
  unfoldable pub parse_op : CString → Option Sembuf
  unfolding with_sign
  parse_op remaining =
      if not (starts_with_digit remaining) then none else with_number (strtol remaining)

  abbrev pub op_then : Option Sembuf → Option (List Sembuf) → Option (List Sembuf)
  op_then none rest = none
  op_then (some op) none = none
  op_then (some op) (some ops) = some (op ∷ ops)

  -- The loop, with the number of operations that are still permitted.
  unfoldable pub parse_from : ℕ → CString → Option (List Sembuf)
  unfolding parse_op cut
  parse_from zero remaining = none
  parse_from (suc left) remaining =
      op_then (parse_op remaining)
        (elim (cut b',' remaining).1 [ none ↦ some [] | some rest ↦ parse_from left rest ])

  unfoldable pub parse_ops : CString → Option (List Sembuf)
  unfolding parse_from
  parse_ops arg = parse_from max_semops arg
