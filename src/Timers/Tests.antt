-- ===== src/Timers/Tests.antt =====
-- A string read, and the theorem at concrete parts.
use linux_programming_interf.Common.{ℕ, ◌-◌, ◌≡◌, refl, some, none, List, [], ◌∷◌, Option, arith}
use linux_programming_interf.Common.Int.{ℤ, pos}
use linux_programming_interf.Timers.{itimerspec_from_str}
use linux_programming_interf.Timers.Printed.{
  itimerspec_from_str-text, with_rest, time_text, interval_text, meaning,
}
use linux_programming_interf.Timers.{Itimerspec}

-- The number of the first character only.
abbrev digit : List ℕ → ℤ
digit [] = pos 0
digit (x ∷ xs) = pos (x - b'0')

abbrev interval : Option (List ℕ × Option (List ℕ))
interval = some (b'1' ∷ [], none)

abbrev spec : Itimerspec
spec = record {
  it_value = record { tv_sec = pos 2; tv_nsec = pos 5 };
  it_interval = record { tv_sec = pos 1; tv_nsec = pos 0 };
}

one_string : itimerspec_from_str digit (b'2' ∷ b'/' ∷ b'5' ∷ b':' ∷ b'1' ∷ []) ≡ spec
unfolding itimerspec_from_str
one_string = refl

itimerspec_from_str-text_example :
    itimerspec_from_str digit
      (with_rest b':' (time_text (b'2' ∷ [], some (b'5' ∷ []))) (interval_text interval))
    ≡ meaning digit (b'2' ∷ []) (some (b'5' ∷ [])) interval
itimerspec_from_str-text_example =
    itimerspec_from_str-text digit (b'2' ∷ []) (some (b'5' ∷ [])) interval
      ((λ e. omega (arith, e)), tt)
      ((λ e. omega (arith, e)), ((λ e. omega (arith, e)), ((λ e. omega (arith, e)), tt)))
      ((λ e. omega (arith, e)), tt)
