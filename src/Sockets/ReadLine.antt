-- ===== src/Sockets/ReadLine.antt =====
-- `readLine` of book-src/sockets/read_line.c: one byte at a time from a descriptor into a buffer of
-- `n` bytes. What `read(fd, &ch, 1)` returns, call after call, is the list of events that the
-- function is given; where the list ends the call still blocks.
pub mod Lines
use linux_programming_interf.Common.{
  ℕ, ◌+◌, ◌-◌, Bool, true, false, Option, none, some, List, [], ◌∷◌, ltb, ◌==◌, if◌then◌else◌,
}
use linux_programming_interf.Common.Memory.{store}

-- One return of `read(fd, &ch, 1)`: 1 with the byte, 0 at end of file, -1 with `errno`.
pub data ReadEvent : Type 0 where
  byte : ℕ → ReadEvent
  eof : ReadEvent
  error : ℕ → ReadEvent

abbrev pub eintr : ℕ
eintr = 4

abbrev pub einval : ℕ
einval = 22

-- `line` is a return value that is not negative, with the caller's buffer and what is left to read;
-- `failed` is -1 with `errno`; `waiting` is a call that blocks in `read`; `fault` is a write past
-- the end of the caller's buffer.
pub data LineResult : Type 0 where
  line : ℕ → List ℕ → List ReadEvent → LineResult
  failed : ℕ → List ℕ → List ReadEvent → LineResult
  waiting : LineResult
  fault : LineResult

-- The loop's variables: `totRead`, the index `buf - buffer`, and the buffer's contents.
pub record Cursor : Type 0 where
  pub tot_read : ℕ
  pub buf : ℕ
  pub mem : List ℕ

-- The bytes past the first `n - 1` are dropped.
pub put_byte : ℕ → ℕ → Cursor → Option Cursor
unfolding store
put_byte n ch c =
    if ltb c.tot_read (n - 1)
    then elim (store c.mem c.buf ch) [
      | none ↦ none
      | some mem ↦ some (record { tot_read = c.tot_read + 1; buf = c.buf + 1; mem = mem })
    ]
    else some c

-- `*buf = '\0'; return totRead;`
pub finish : Cursor → List ReadEvent → LineResult
unfolding store
finish c rest = elim (store c.mem c.buf 0) [ none ↦ fault | some mem ↦ line c.tot_read mem rest ]

pub read_line_loop : ℕ → List ReadEvent → Cursor → LineResult
unfolding put_byte finish
read_line_loop n [] c = waiting
read_line_loop n (error e ∷ es) c =
    let rest = read_line_loop n es c in if e == eintr then rest else failed e c.mem es
read_line_loop n (eof ∷ es) c = if c.tot_read == 0 then line 0 c.mem es else finish c es
read_line_loop n (byte ch ∷ es) c = elim (put_byte n ch c) [
  | none ↦ fault
  | some c' ↦ if ch == b'\n' then finish c' es else read_line_loop n es c'
]

-- `readLine(fd, buffer, n)`: a null `buffer` is `none`.
unfoldable pub read_line : ℕ → Option (List ℕ) → List ReadEvent → LineResult
unfolding read_line_loop
read_line n none es = failed einval [] es
read_line n (some mem) es =
    if n == 0
    then failed einval mem es
    else read_line_loop n es (record { tot_read = 0; buf = 0; mem = mem })
