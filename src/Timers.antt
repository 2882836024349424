-- ===== src/Timers.antt =====
-- `itimerspecFromStr` of book-src/timers/itimerspec_from_str.c. `atoi` is the C library's.
pub mod Printed
mod Tests
use linux_programming_interf.Common.{ℕ, Option, none, some, List, [], ◌∷◌, ◌==◌, if◌then◌else◌}
use linux_programming_interf.Common.Int.{ℤ, pos}

pub record Timespec : Type 0 where
  pub tv_sec : ℤ
  pub tv_nsec : ℤ

pub record Itimerspec : Type 0 where
  pub it_value : Timespec
  pub it_interval : Timespec

-- A string with one more character in front.
abbrev pub longer : ℕ → List ℕ × Option (List ℕ) → List ℕ × Option (List ℕ)
longer x (front, rest) = (x ∷ front, rest)

-- `strchr(s, c)`, with '\0' put there if it is not NULL: the string that `s` is then, and the one
-- behind the character found.
unfoldable pub cut : ℕ → List ℕ → List ℕ × Option (List ℕ)
cut c [] = ([], none)
cut c (x ∷ xs) = let found = cut c xs in if x == c then ([], some xs) else longer x found

-- The two numbers around a '/', the second one 0 if there is none.
abbrev pub both_numbers : (List ℕ → ℤ) → List ℕ × Option (List ℕ) → Timespec
both_numbers atoi (sec, none) = record { tv_sec = atoi sec; tv_nsec = pos 0 }
both_numbers atoi (sec, some nsec) = record { tv_sec = atoi sec; tv_nsec = atoi nsec }

unfoldable pub timespec_from : (List ℕ → ℤ) → List ℕ → Timespec
unfolding cut
timespec_from atoi s = both_numbers atoi (cut b'/' s)

-- The string cut at ':'.
unfoldable pub both_times : (List ℕ → ℤ) → List ℕ × Option (List ℕ) → Itimerspec
unfolding timespec_from
both_times atoi (value, none) = record {
  it_value = timespec_from atoi value;
  it_interval = record { tv_sec = pos 0; tv_nsec = pos 0 };
}
both_times atoi (value, some interval) = record {
  it_value = timespec_from atoi value;
  it_interval = timespec_from atoi interval;
}

unfoldable pub itimerspec_from_str : (List ℕ → ℤ) → List ℕ → Itimerspec
unfolding cut both_times
itimerspec_from_str atoi str = both_times atoi (cut b':' str)
