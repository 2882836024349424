-- ===== src/Sockets/Seqnum/Ranges.antt =====
-- The ranges of numbers that the server grants.
use linux_programming_interf.Common.{
  ℕ, some, replicate, ◌+◌, ◌<◌, ◌≤◌, ◌≡◌, ◌%◌, ◌^◌, refl, ◌∙◌, List, [], ◌∷◌, arith, inl, inr, ◌==◌,
  Bool-cases,
}
use linux_programming_interf.Common.Int.{ℤ, pos, negsuc}
use linux_programming_interf.Sockets.ReadLine.{LineResult, line, failed, waiting, fault, read_line}
use linux_programming_interf.Sockets.Seqnum.{
  Connection, accept_failed, accepted, Reply, skipped, granted, hung, overrun, after, int_len,
  grant, answer, serve, serve_all,
}

abbrev pub total : List (ℕ × ℕ) → ℕ
total [] = 0
total ((first, len) ∷ gs) = len + total gs

-- Each range has a number, and starts at `lo` or later and after the ranges before it.
abbrev pub Ascending : ℕ → List (ℕ × ℕ) → Type 0
Ascending lo [] = Unit
Ascending lo ((first, len) ∷ gs) = (lo ≤ first) × (0 < len) × Ascending (first + len) gs

-- What a round leaves: the number as it was, or a range that starts there.
abbrev Continues : ℕ → Reply → Type 0
Continues seq_num (skipped next) = next ≡ seq_num
Continues seq_num (granted first len next) =
    (first ≡ seq_num) × (0 < len) × (next ≡ (seq_num + len) % 2 ^ 32)
Continues seq_num hung = Unit
Continues seq_num overrun = Unit

grant-Continues : (seq_num : ℕ) (req_len : ℤ) → Continues seq_num (grant seq_num req_len)
unfolding grant
grant-Continues seq_num (negsuc k) = refl
grant-Continues seq_num (pos req_len) = elim (Bool-cases (req_len == 0)) [
  | inl empty ↦ rw (empty, grant) refl
  | inr some_len ↦ rw (some_len, grant) (refl, ground (arith, some_len), refl)
]

answer-Continues :
    (atoi : List ℕ → ℤ) (seq_num : ℕ) (r : LineResult) → Continues seq_num (answer atoi seq_num r)
unfolding answer
answer-Continues atoi seq_num (line n req_len_str rest) = elim (Bool-cases (n == 0)) [
  | inl empty ↦ rw (empty, answer) refl
  | inr read ↦ rw (read, answer) (grant-Continues seq_num (atoi req_len_str))
]
answer-Continues atoi seq_num (failed e req_len_str rest) = refl
answer-Continues atoi seq_num waiting = tt
answer-Continues atoi seq_num fault = tt

serve-Continues :
    (atoi : List ℕ → ℤ) (seq_num : ℕ) (c : Connection) → Continues seq_num (serve atoi seq_num c)
unfolding serve
serve-Continues atoi seq_num accept_failed = refl
serve-Continues atoi seq_num (accepted events) =
    answer-Continues atoi seq_num (read_line int_len (some (replicate int_len 0)) events)

Ascending-from : (lo lo' : ℕ) (gs : List (ℕ × ℕ)) → lo ≤ lo' → Ascending lo' gs → Ascending lo gs
Ascending-from lo lo' [] le h = tt
Ascending-from lo lo' ((first, len) ∷ gs) le (low, positive, h) =
    (omega (arith, le, low), positive, h)

-- No wrap-around below 2 ^ 32.
unwrapped : (m n : ℕ) → m + n < 2 ^ 32 → (m + n) % 2 ^ 32 ≡ m + n
unwrapped m n h = omega (arith, h)

after-Ascending :
    (seq_num : ℕ) (rest : ℕ → List (ℕ × ℕ)) (r : Reply)
    → Continues seq_num r
    → ((n : ℕ) → n + total (rest n) < 2 ^ 32 → Ascending n (rest n))
    → seq_num + total (after rest r) < 2 ^ 32
    → Ascending seq_num (after rest r)
after-Ascending seq_num rest (skipped next) e ih h =
    Ascending-from seq_num next (rest next) (omega (arith, e)) (ih next (omega (arith, e, h)))
after-Ascending seq_num rest (granted first len next) (e, positive, e') ih h =
    let same : next ≡ seq_num + len = e' ∙ unwrapped seq_num len (omega (arith, h)) in
    (
      omega (arith, e),
      positive,
      Ascending-from (first + len) next (rest next) (omega (arith, e, same))
          (ih next (omega (arith, same, h))),
    )
after-Ascending seq_num rest hung e ih h = tt
after-Ascending seq_num rest overrun e ih h = tt

-- is_seqnum_sv: as long as the numbers granted stay below 2 ^ 32, every range has at least one number
-- and starts at the initial number or later and after all ranges granted before it, whatever the
-- clients send: no number is granted twice.
pub serve_all-Ascending :
    (atoi : List ℕ → ℤ) (seq_num : ℕ) (cs : List Connection)
    → seq_num + total (serve_all atoi seq_num cs) < 2 ^ 32
    → Ascending seq_num (serve_all atoi seq_num cs)
unfolding serve_all
serve_all-Ascending atoi seq_num [] h = tt
serve_all-Ascending atoi seq_num (c ∷ cs) h =
    after-Ascending seq_num (λ next. serve_all atoi next cs) (serve atoi seq_num c)
      (serve-Continues atoi seq_num c) (λ n below. serve_all-Ascending atoi n cs below) h
