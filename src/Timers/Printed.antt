-- ===== src/Timers/Printed.antt =====
-- Strings of the documented form, and what is read from them.
use linux_programming_interf.Common.{
  ℕ, ◌≡◌, refl, ap, ◌∙◌, false, true, Option, none, some, List, [], ◌∷◌, ◌++◌, ◌==◌, arith,
}
use linux_programming_interf.Common.Text.{Lacks}
use linux_programming_interf.Common.Int.{ℤ, pos}
use linux_programming_interf.Timers.{
  Itimerspec, longer, cut, both_numbers, timespec_from, both_times, itimerspec_from_str,
}

-- `front`, with the character and `rest` behind it if there is a rest.
abbrev pub with_rest : ℕ → List ℕ → Option (List ℕ) → List ℕ
with_rest c front none = front
with_rest c front (some rest) = front ++ c ∷ rest

pub cut-with_rest :
    (c : ℕ) (front : List ℕ) (rest : Option (List ℕ))
    → Lacks c front
    → cut c (with_rest c front rest) ≡ (front, rest)
unfolding cut
cut-with_rest c [] none h = refl
cut-with_rest c [] (some rest) h = let same : (c == c) ≡ true = ground arith in rw (same, cut) refl
cut-with_rest c (x ∷ front) none (other, h) =
    let skips : (x == c) ≡ false = ground (arith, other) in
    rw (skips, cut) (ap (longer x) (cut-with_rest c front none h))
cut-with_rest c (x ∷ front) (some rest) (other, h) =
    let skips : (x == c) ≡ false = ground (arith, other) in
    rw (skips, cut) (ap (longer x) (cut-with_rest c front (some rest) h))

-- The text of a time, "sec" or "sec/nanosec".
abbrev pub time_text : List ℕ × Option (List ℕ) → List ℕ
time_text (sec, nsec) = with_rest b'/' sec nsec

abbrev pub interval_text : Option (List ℕ × Option (List ℕ)) → Option (List ℕ)
interval_text none = none
interval_text (some t) = some (time_text t)

-- The parts hold no separator that would be read as one of theirs.
abbrev pub IsTime : List ℕ × Option (List ℕ) → Type 0
IsTime (sec, nsec) = Lacks b'/' sec

abbrev pub IsInterval : Option (List ℕ × Option (List ℕ)) → Type 0
IsInterval none = Unit
IsInterval (some t) = IsTime t

-- The number of a text, 0 for one that is omitted.
abbrev pub number_or_zero : (List ℕ → ℤ) → Option (List ℕ) → ℤ
number_or_zero atoi none = pos 0
number_or_zero atoi (some text) = atoi text

-- The text of the seconds, and that of the nanoseconds, of an interval that may be omitted.
abbrev pub interval_sec : Option (List ℕ × Option (List ℕ)) → Option (List ℕ)
interval_sec none = none
interval_sec (some (sec, nsec)) = some sec

abbrev pub interval_nsec : Option (List ℕ × Option (List ℕ)) → Option (List ℕ)
interval_nsec none = none
interval_nsec (some (sec, nsec)) = nsec

-- The documented meaning: each field has the number of its own text.
abbrev pub meaning :
    (List ℕ → ℤ) → List ℕ → Option (List ℕ) → Option (List ℕ × Option (List ℕ)) → Itimerspec
meaning atoi sec nsec interval = record {
  it_value = record { tv_sec = atoi sec; tv_nsec = number_or_zero atoi nsec };
  it_interval = record {
    tv_sec = number_or_zero atoi (interval_sec interval);
    tv_nsec = number_or_zero atoi (interval_nsec interval);
  };
}

both_numbers-number_or_zero :
    (atoi : List ℕ → ℤ) (sec : List ℕ) (nsec : Option (List ℕ))
    → both_numbers atoi (sec, nsec)
      ≡ record { tv_sec = atoi sec; tv_nsec = number_or_zero atoi nsec }
both_numbers-number_or_zero atoi sec none = refl
both_numbers-number_or_zero atoi sec (some nsec) = refl

timespec_from-time_text :
    (atoi : List ℕ → ℤ) (sec : List ℕ) (nsec : Option (List ℕ))
    → Lacks b'/' sec
    → timespec_from atoi (time_text (sec, nsec))
      ≡ record { tv_sec = atoi sec; tv_nsec = number_or_zero atoi nsec }
unfolding timespec_from
timespec_from-time_text atoi sec nsec h =
    ap (both_numbers atoi) (cut-with_rest b'/' sec nsec h)
    ∙ both_numbers-number_or_zero atoi sec nsec

both_times-meaning :
    (atoi : List ℕ → ℤ) (sec : List ℕ) (nsec : Option (List ℕ))
    (interval : Option (List ℕ × Option (List ℕ)))
    → Lacks b'/' sec
    → IsInterval interval
    → both_times atoi (time_text (sec, nsec), interval_text interval)
      ≡ meaning atoi sec nsec interval
unfolding both_times
both_times-meaning atoi sec nsec none h h' = rw (timespec_from-time_text atoi sec nsec h) refl
both_times-meaning atoi sec nsec (some (sec', nsec')) h h' =
    rw (timespec_from-time_text atoi sec nsec h, timespec_from-time_text atoi sec' nsec' h') refl

-- itimerspecFromStr: a string of the documented form,
-- "value.sec[/value.nanosec][:interval.sec[/interval.nanosec]]", with no ':' in the text of the value
-- and no '/' in the two texts of seconds, gives each field the number of its text and 0 to those
-- that are omitted.
pub itimerspec_from_str-text :
    (atoi : List ℕ → ℤ) (sec : List ℕ) (nsec : Option (List ℕ))
    (interval : Option (List ℕ × Option (List ℕ)))
    → Lacks b'/' sec
    → Lacks b':' (time_text (sec, nsec))
    → IsInterval interval
    → itimerspec_from_str atoi (with_rest b':' (time_text (sec, nsec)) (interval_text interval))
      ≡ meaning atoi sec nsec interval
unfolding itimerspec_from_str
itimerspec_from_str-text atoi sec nsec interval h colon h' =
    ap (both_times atoi) (cut-with_rest b':' (time_text (sec, nsec)) (interval_text interval) colon)
    ∙ both_times-meaning atoi sec nsec interval h h'
