-- ===== src/Sockets/ReadLine/Lines.antt =====
-- `readLine` against a description of the line by a plain scan of the events.
use mathlib.Core.List.{append-nil}
use linux_programming_interf.Common.{
  regroup, length-snoc, ℕ, zero, suc, ◌+◌, ◌-◌, ◌≤◌, ◌<◌, ◌≡◌, refl, false, some, List, [], ◌∷◌,
  ◌++◌, arith, ◌==◌, if◌then◌else◌, Bool-cases, length, take, take-nil, drop, inl, inr,
}
use linux_programming_interf.Common.Memory.{store-append}
use linux_programming_interf.Sockets.ReadLine.{
  ReadEvent, byte, eof, error, eintr, LineResult, line, failed, waiting, Cursor, put_byte, finish,
  read_line_loop, read_line,
}

-- How the events that make up a line end.
pub data Ending : Type 0 where
  newline at_eof starved : Ending
  broken : ℕ → Ending

-- The bytes up to a newline (included), the end of file or an error; how they end; what follows.
pub record Scanned : Type 0 where
  pub bytes : List ℕ
  pub ending : Ending
  pub rest : List ReadEvent

abbrev pub prepend : ℕ → Scanned → Scanned
prepend ch s = record s { bytes = ch ∷ s.bytes }

-- Interrupted reads leave no trace in the scan.
unfoldable pub scan : List ReadEvent → Scanned
scan [] = record { bytes = []; ending = starved; rest = [] }
scan (error e ∷ es) =
    let later = scan es in
    if e == eintr then later else record { bytes = []; ending = broken e; rest = es }
scan (eof ∷ es) = record { bytes = []; ending = at_eof; rest = es }
scan (byte ch ∷ es) =
    let later = scan es in
    if ch == b'\n'
    then record { bytes = ch ∷ []; ending = newline; rest = es }
    else prepend ch later

-- What the caller sees, when `kept` stands at the start of the buffer and `spare` behind it.
abbrev pub answer : Ending → List ℕ → List ℕ → List ReadEvent → LineResult
answer newline kept spare rest = line (length kept) (kept ++ 0 ∷ drop 1 spare) rest
answer at_eof [] spare rest = line 0 spare rest
answer at_eof (k ∷ kept) spare rest = line (length (k ∷ kept)) ((k ∷ kept) ++ 0 ∷ drop 1 spare) rest
answer starved kept spare rest = waiting
answer (broken e) kept spare rest = failed e (kept ++ spare) rest

-- The answer of a line that is to be cut to `room` bytes, with `ps` read before.
abbrev pub described : ℕ → List ℕ → List ℕ → Scanned → LineResult
described room ps tail s =
    answer s.ending (ps ++ take room s.bytes) (drop (length (take room s.bytes)) tail) s.rest

finish-append :
    (ps : List ℕ) (x : ℕ) (tail : List ℕ) (es : List ReadEvent) (t b : ℕ)
    → t ≡ length ps
    → b ≡ length ps
    → finish (record { tot_read = t; buf = b; mem = ps ++ x ∷ tail }) es
      ≡ line (length ps) (ps ++ 0 ∷ tail) es
unfolding finish
finish-append ps x tail es t b e e' = ground (arith, store-append ps x 0 tail)

put_byte-room :
    (n t b ch : ℕ) (ps : List ℕ) (x : ℕ) (tail : List ℕ)
    → b ≡ length ps
    → t < n - 1
    → put_byte n ch (record { tot_read = t; buf = b; mem = ps ++ x ∷ tail })
      ≡ some (record { tot_read = t + 1; buf = b + 1; mem = ps ++ ch ∷ tail })
unfolding put_byte
put_byte-room n t b ch ps x tail e h = rw e (ground (arith, store-append ps x ch tail))

put_byte-full : (n ch : ℕ) (c : Cursor) → n - 1 ≤ c.tot_read → put_byte n ch c ≡ some c
unfolding put_byte
put_byte-full n ch c h = ground arith

finish-more :
    (ps : List ℕ) (ch : ℕ) (tail : List ℕ) (es : List ReadEvent) (t b : ℕ)
    → t ≡ length ps
    → b ≡ length ps
    → 0 < length tail
    → finish (record { tot_read = t + 1; buf = b + 1; mem = (ps ++ ch ∷ []) ++ tail }) es
      ≡ line (length (ps ++ ch ∷ [])) ((ps ++ ch ∷ []) ++ 0 ∷ drop 1 tail) es
finish-more ps ch [] es t b e e' h = elim h [ ]
finish-more ps ch (y ∷ tail) es t b e e' h =
    finish-append (ps ++ ch ∷ []) y tail es (t + 1) (b + 1) (length-snoc ps ch t e)
      (length-snoc ps ch b e')

-- The loop, from a state in which `ps` has been read.
loop-described :
    (n : ℕ) (es : List ReadEvent) (room : ℕ) (ps tail : List ℕ) (t b : ℕ)
    → t ≡ length ps
    → b ≡ length ps
    → n - 1 ≡ t + room
    → room < length tail
    → read_line_loop n es (record { tot_read = t; buf = b; mem = ps ++ tail })
      ≡ described room ps tail (scan es)
unfolding read_line_loop scan
loop-described n es room ps [] t b e e' k h = elim h [ ]
loop-described n [] room ps (x ∷ tail) t b e e' k h = refl
loop-described n (error r ∷ es) room ps (x ∷ tail) t b e e' k h = elim (Bool-cases (r == eintr)) [
  | inl again ↦ rw again (loop-described n es room ps (x ∷ tail) t b e e' k h)
  | inr stop ↦ rw (stop, take-nil ℕ room, append-nil)
]
loop-described n (eof ∷ es) room [] (x ∷ tail) t b e e' k h = rw (e, take-nil ℕ room)
loop-described n (eof ∷ es) room (p ∷ ps) (x ∷ tail) t b e e' k h =
    let some_read : (t == 0) ≡ false = ground arith in
    rw (take-nil ℕ room, append-nil, some_read) (finish-append (p ∷ ps) x tail es t b e e')
loop-described n (byte ch ∷ es) zero ps (x ∷ tail) t b e e' k h =
    rw
      (
        read_line_loop,
        put_byte-full n ch (record { tot_read = t; buf = b; mem = ps ++ x ∷ tail }) (omega arith),
      )
      (elim (Bool-cases (ch == b'\n')) [
        | inl last ↦ rw (last, append-nil) (finish-append ps x tail es t b e e')
        | inr more ↦ rw more (loop-described n es zero ps (x ∷ tail) t b e e' k h)
      ])
loop-described n (byte ch ∷ es) (suc room) ps (x ∷ tail) t b e e' k h =
    rw (read_line_loop, put_byte-room n t b ch ps x tail e' (omega arith))
      (elim (Bool-cases (ch == b'\n')) [
        | inl last ↦
            rw (last, take-nil ℕ room, regroup ps ch tail)
              (finish-more ps ch tail es t b e e' (omega arith))
        | inr more ↦
            rw (more, regroup ps ch tail, regroup ps ch (take room (scan es).bytes))
              (loop-described n es room (ps ++ ch ∷ []) tail (t + 1) (b + 1) (length-snoc ps ch t e)
                (length-snoc ps ch b e') (omega arith) (omega arith))
      ])

-- `readLine` with a buffer of at least `n` bytes, `n` positive, never writes past the buffer. If the
-- bytes up to a newline, the end of file or an error (interrupted reads skipped) are `bytes`, it
-- leaves the first `n - 1` of them in the buffer, with a null byte behind them, and returns their
-- number; it returns 0 and writes nothing if the file ends with none kept, fails with the error's
-- `errno` at an error, and still waits only if the events end before the line does.
pub read_line-scan :
    (n : ℕ) (mem : List ℕ) (es : List ReadEvent)
    → 0 < n
    → n ≤ length mem
    → read_line n (some mem) es ≡ described (n - 1) [] mem (scan es)
unfolding read_line
read_line-scan n mem es h k =
    let positive : (n == 0) ≡ false = ground arith in
    rw positive (loop-described n es (n - 1) [] mem 0 0 refl refl (omega arith) (omega arith))
