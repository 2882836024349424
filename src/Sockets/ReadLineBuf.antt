-- ===== src/Sockets/ReadLineBuf.antt =====
-- `readLineBuf` of book-src/sockets/read_line_buf.c: lines from a descriptor that is read in blocks.
-- A `struct ReadLineBuf` is its unread characters, those of `buf` from `next` to `len`.
pub mod Blocks
pub mod Lines
use linux_programming_interf.Common.{
  ℕ, ◌+◌, Option, none, some, List, [], ◌∷◌, ltb, ◌==◌, if◌then◌else◌,
}
use linux_programming_interf.Common.Memory.{store}
use linux_programming_interf.Sockets.ReadLine.{einval}
use linux_programming_interf.Sockets.Rdwrn.{ReadReturn, received, read_error}

abbrev pub rl_max_buf : ℕ
rl_max_buf = 10

-- `counted` is a return value with the caller's buffer, the unread characters and the reads to come;
-- `failed` is -1 with `errno`; `waiting` blocks in read(); `fault` is a write past the buffer.
pub data BufResult : Type 0 where
  counted : ℕ → List ℕ → List ℕ → List ReadReturn → BufResult
  failed : ℕ → BufResult
  waiting : BufResult
  fault : BufResult

-- The way through the unread characters: to a newline, or to their end, with `cnt` and the buffer.
pub data Taken : Type 0 where
  newline : ℕ → List ℕ → List ℕ → Taken
  used_up : ℕ → List ℕ → Taken
  overrun : Taken

unfoldable pub read_line_buf_init : List ℕ
read_line_buf_init = []

-- `if (cnt < n) buffer[cnt++] = c;`
unfoldable pub put : ℕ → ℕ → ℕ → List ℕ → Option (ℕ × List ℕ)
unfolding store
put n c cnt mem =
    if ltb cnt n
    then elim (store mem cnt c) [ none ↦ none | some mem' ↦ some (cnt + 1, mem') ]
    else some (cnt, mem)

-- What follows the write of `c`.
abbrev pub after_put : ℕ → List ℕ → (ℕ → List ℕ → Taken) → Option (ℕ × List ℕ) → Taken
after_put c cs next none = overrun
after_put c cs next (some (cnt, mem)) = if c == b'\n' then newline cnt mem cs else next cnt mem

unfoldable pub take_line : ℕ → List ℕ → ℕ → List ℕ → Taken
unfolding put
take_line n [] cnt mem = used_up cnt mem
take_line n (c ∷ cs) cnt mem = after_put c cs (λ k m. take_line n cs k m) (put n c cnt mem)

abbrev pub after_taken : List ReadReturn → (ℕ → List ℕ → BufResult) → Taken → BufResult
after_taken rs next (newline cnt mem unread) = counted cnt mem unread rs
after_taken rs next (used_up cnt mem) = next cnt mem
after_taken rs next overrun = fault

-- The loop from where the unread characters are used up.
unfoldable pub fetch : ℕ → List ReadReturn → ℕ → List ℕ → BufResult
unfolding take_line
fetch n [] cnt mem = waiting
fetch n (read_error e ∷ rs) cnt mem = failed e
fetch n (received [] ∷ rs) cnt mem = counted cnt mem [] rs
fetch n (received (x ∷ xs) ∷ rs) cnt mem =
    after_taken rs (λ k m. fetch n rs k m) (take_line n (x ∷ xs) cnt mem)

unfoldable pub read_line_buf : ℕ → Option (List ℕ) → List ℕ → List ReadReturn → BufResult
unfolding take_line fetch
read_line_buf n none unread rs = failed einval
read_line_buf n (some buffer) unread rs =
    if n == 0
    then failed einval
    else after_taken rs (λ k m. fetch n rs k m) (take_line n unread 0 buffer)
