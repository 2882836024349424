-- ===== src/Sockets/Seqnum/Bounds.antt =====
-- The requests, and the size of the server's buffer.
use linux_programming_interf.Common.{
  ℕ, some, List, [], ◌∷◌, arith, inl, inr, ◌==◌, Bool-cases, replicate, length, length-replicate,
  take, drop,
}
use linux_programming_interf.Common.Int.{ℤ, pos, negsuc}
use linux_programming_interf.Sockets.ReadLine.{
  ReadEvent, LineResult, line, failed, waiting, fault, read_line,
}
use linux_programming_interf.Sockets.ReadLine.Lines.{
  Ending, newline, at_eof, starved, broken, Scanned, scan, described, read_line-scan,
}
use linux_programming_interf.Sockets.ReadLine.Lines
use linux_programming_interf.Sockets.Seqnum.{
  Connection, accept_failed, accepted, Reply, skipped, granted, hung, overrun, int_len, grant,
  answer, serve,
}

-- The result of readLine() is no fault.
abbrev Sound : LineResult → Type 0
Sound (line n mem rest) = Unit
Sound (failed e mem rest) = Unit
Sound waiting = Unit
Sound fault = ⊥

-- Nor is the round's.
abbrev pub InBounds : Reply → Type 0
InBounds (skipped next) = Unit
InBounds (granted first len next) = Unit
InBounds hung = Unit
InBounds overrun = ⊥

answer-Sound :
    (e : Ending) (kept spare : List ℕ) (rest : List ReadEvent)
    → Sound (Lines.answer e kept spare rest)
answer-Sound newline kept spare rest = tt
answer-Sound at_eof [] spare rest = tt
answer-Sound at_eof (k ∷ kept) spare rest = tt
answer-Sound starved kept spare rest = tt
answer-Sound (broken e) kept spare rest = tt

read_line-Sound :
    (events : List ReadEvent) → Sound (read_line int_len (some (replicate int_len 0)) events)
read_line-Sound events =
    rw
      (read_line-scan int_len (replicate int_len 0) events (omega arith)
        (omega (arith, length-replicate {A = ℕ} int_len 0)))
      (answer-Sound (scan events).ending (take 29 (scan events).bytes)
        (drop (length (take 29 (scan events).bytes)) (replicate int_len 0)) (scan events).rest)

grant-InBounds : (seq_num : ℕ) (req_len : ℤ) → InBounds (grant seq_num req_len)
unfolding grant
grant-InBounds seq_num (negsuc k) = tt
grant-InBounds seq_num (pos req_len) = elim (Bool-cases (req_len == 0)) [
  | inl empty ↦ rw (empty, grant) tt
  | inr some_len ↦ rw (some_len, grant) tt
]

answer-InBounds :
    (atoi : List ℕ → ℤ) (seq_num : ℕ) (r : LineResult) → Sound r → InBounds (answer atoi seq_num r)
unfolding answer
answer-InBounds atoi seq_num (line n req_len_str rest) h = elim (Bool-cases (n == 0)) [
  | inl empty ↦ rw (empty, answer) tt
  | inr read ↦ rw (read, answer) (grant-InBounds seq_num (atoi req_len_str))
]
answer-InBounds atoi seq_num (failed e req_len_str rest) h = tt
answer-InBounds atoi seq_num waiting h = tt
answer-InBounds atoi seq_num fault h = h

-- is_seqnum_sv: whatever a client sends and however its connection ends, no round of the server
-- writes past the end of reqLenStr.
pub serve-InBounds :
    (atoi : List ℕ → ℤ) (seq_num : ℕ) (c : Connection) → InBounds (serve atoi seq_num c)
unfolding serve
serve-InBounds atoi seq_num accept_failed = tt
serve-InBounds atoi seq_num (accepted events) =
    answer-InBounds atoi seq_num (read_line int_len (some (replicate int_len 0)) events)
      (read_line-Sound events)
