-- ===== src/Tail.antt =====
-- exercises/13-file-io-buffering/tail.c: the last lines of a file, which is read backwards in blocks.
-- The file is a regular one that does not change: lseek() and read() succeed and give its bytes. A number of
-- lines below 0 is never reached, as 0 is not.
pub mod Lines
pub mod Scanned
mod Tests
use mathlib.Core.List.{reverse}
use linux_programming_interf.Common.{
  ℕ, zero, suc, ◌+◌, ◌-◌, Bool, true, false, ◌&&◌, not, Option, none, some, List, [], ◌∷◌, ◌++◌,
  map, ◌==◌, if◌then◌else◌, length, take, drop,
}
use linux_programming_interf.Common.Text.{until_null}

-- How the loop over a buffer ends: at `done`, with `initBufPos`, or with the count of the lines.
pub data Scan : Type 0 where
  stopped : ℕ → Scan
  passed : ℕ → Scan

-- The loop over a buffer of the given size from its last byte on: the bytes from `buffer[i]` down to the
-- first one. The flag tells whether this is the file's last block.
unfoldable pub scan : ℕ → Bool → ℕ → List ℕ → ℕ → Scan
scan n is_last size [] lines_count = passed lines_count
scan n is_last size (c ∷ cs) lines_count =
    let same = scan n is_last size cs lines_count in
    let more = scan n is_last size cs (lines_count + 1) in
    let i = length cs in
    if not (c == b'\n')
    then same
    else if is_last && (i + 1 == size)
    then same
    else if lines_count == n
    then stopped (i + 1)
    else more

-- What `readBuf` reads up to a position, and where that begins.
abbrev pub read_pos : ℕ → ℕ → ℕ
read_pos file_pos buf_size = file_pos - buf_size

unfoldable pub read_buf : List ℕ → ℕ → ℕ → List ℕ
read_buf file file_pos buf_size =
    take (file_pos - read_pos file_pos buf_size) (drop (read_pos file_pos buf_size) file)

-- The end of the loop: what is printed of the buffers, in the order of the file; or a write past the
-- end of `buffers`; or a read before its beginning.
pub data TailEnd : Type 0 where
  prints : List (List ℕ) → TailEnd
  overruns : TailEnd
  underruns : TailEnd

abbrev pub is_nil : List (List ℕ) → Bool
is_nil [] = true
is_nil (b ∷ bs) = false

-- At `done`, where the first buffer may be left out.
abbrev pub from_pos : ℕ → List ℕ → List (List ℕ) → TailEnd
from_pos pos buffer [] = if pos == length buffer then underruns else prints (drop pos buffer ∷ [])
from_pos pos buffer (b ∷ buffers) =
    if pos == length buffer then prints (b ∷ buffers) else prints (drop pos buffer ∷ b ∷ buffers)

-- The rest of a round, with the next one.
abbrev pub after_scan : ℕ → List ℕ → List (List ℕ) → (ℕ → TailEnd) → Scan → TailEnd
after_scan pos buffer buffers again (stopped p) = from_pos p buffer buffers
after_scan pos buffer buffers again (passed lines) =
    if pos == 0 then prints (buffer ∷ buffers) else again lines

-- The loop of `tail`, with the buffers that are free, those filled (the last block of the file at the
-- end), and `linesCount`.
unfoldable pub tail_loop : ℕ → ℕ → List ℕ → ℕ → ℕ → List (List ℕ) → ℕ → TailEnd
unfolding scan read_buf
tail_loop zero n file buf_size file_pos buffers lines_count = overruns
tail_loop (suc left) n file buf_size file_pos buffers lines_count =
    let pos = read_pos file_pos buf_size in
    let buffer = read_buf file file_pos buf_size in
    let again = (λ (lines : ℕ). tail_loop left n file buf_size pos (buffer ∷ buffers) lines) in
    after_scan pos buffer buffers again
      (scan n (is_nil buffers) (length buffer) (reverse buffer) lines_count)

abbrev pub max_buffers_cnt : ℕ
max_buffers_cnt = 1000

-- `printf("%.*s", ...)` ends at a null byte.
abbrev pub all_printed : List (List ℕ) → List ℕ
all_printed [] = b'\n' ∷ []
all_printed (b ∷ bs) = until_null b ++ all_printed bs

-- The output: `none` where an access goes wrong.
abbrev pub output : TailEnd → Option (List ℕ)
output (prints bs) = some (all_printed bs)
output overruns = none
output underruns = none

unfoldable pub tail : ℕ → List ℕ → ℕ → Option (List ℕ)
unfolding tail_loop
tail n file buf_size = output (tail_loop max_buffers_cnt n file buf_size (length file) [] 1)
