-- ===== src/Sockets/Rdwrn.antt =====
-- `readn` and `writen` of book-src/sockets/rdwrn.c: transfers of exactly `n` bytes, restarted after
-- partial transfers and interruptions. What read() and write() return, call after call, is a list.
pub mod Readn
pub mod Writen
use linux_programming_interf.Common.{
  ℕ, zero, suc, ◌+◌, ◌-◌, Bool, true, false, Option, none, some, List, [], ◌∷◌, ◌++◌, ltb, ◌==◌,
  if◌then◌else◌, length, take, drop,
}
use linux_programming_interf.Common.Memory.{store}
use linux_programming_interf.Sockets.ReadLine.{eintr}

-- One read(): the bytes that it delivers (none at end of file), or -1 with `errno`.
pub data ReadReturn : Type 0 where
  received : List ℕ → ReadReturn
  read_error : ℕ → ReadReturn

-- `returned` is a value that is not negative, with the caller's buffer and the reads to come;
-- `failed` is -1 with `errno`; `waiting` blocks in read(); `fault` is a write past the buffer.
pub data ReadnResult : Type 0 where
  returned : ℕ → List ℕ → List ReadReturn → ReadnResult
  failed : ℕ → ReadnResult
  waiting : ReadnResult
  fault : ReadnResult

-- What read() does to the buffer from `buf` on.
unfoldable pub copy_in : List ℕ → ℕ → List ℕ → Option (List ℕ)
unfolding store
copy_in mem i [] = some mem
copy_in mem i (x ∷ xs) = elim (store mem i x) [ none ↦ none | some mem' ↦ copy_in mem' (i + 1) xs ]

-- The loop, by the next return of read(); `totRead < n` is tested before each call.
unfoldable pub readn_loop : ℕ → List ReadReturn → ℕ → List ℕ → ReadnResult
unfolding copy_in
readn_loop n [] tot_read mem = if ltb tot_read n then waiting else returned tot_read mem []
readn_loop n (read_error e ∷ rs) tot_read mem =
    let again = readn_loop n rs tot_read mem in
    if ltb tot_read n
    then if e == eintr then again else failed e
    else returned tot_read mem (read_error e ∷ rs)
readn_loop n (received [] ∷ rs) tot_read mem =
    if ltb tot_read n then returned tot_read mem rs else returned tot_read mem (received [] ∷ rs)
readn_loop n (received (x ∷ xs) ∷ rs) tot_read mem =
    if ltb tot_read n
    then (elim (copy_in mem tot_read (x ∷ xs)) [
      | none ↦ fault
      | some mem' ↦ readn_loop n rs (tot_read + length (x ∷ xs)) mem'
    ])
    else returned tot_read mem (received (x ∷ xs) ∷ rs)

unfoldable pub readn : ℕ → List ℕ → List ReadReturn → ReadnResult
unfolding readn_loop
readn n mem rs = readn_loop n rs 0 mem

-- One write(): the number of bytes that it takes, or -1 with `errno`.
pub data WriteReturn : Type 0 where
  wrote : ℕ → WriteReturn
  write_error : ℕ → WriteReturn

-- `sent` is the return value of writen() with what went out to the descriptor; `stopped` is -1 with
-- what went out before.
pub data WritenResult : Type 0 where
  sent : ℕ → List ℕ → WritenResult
  stopped : List ℕ → WritenResult
  blocked : List ℕ → WritenResult

-- The loop: `buf` is what follows the pointer `buf`, `out` what went out before.
unfoldable pub writen_loop : ℕ → List WriteReturn → ℕ → List ℕ → List ℕ → WritenResult
writen_loop n [] tot_written buf out =
    if ltb tot_written n then blocked out else sent tot_written out
writen_loop n (write_error e ∷ ws) tot_written buf out =
    let again = writen_loop n ws tot_written buf out in
    if ltb tot_written n then if e == eintr then again else stopped out else sent tot_written out
writen_loop n (wrote zero ∷ ws) tot_written buf out =
    if ltb tot_written n then stopped out else sent tot_written out
writen_loop n (wrote (suc k) ∷ ws) tot_written buf out =
    let rest =
      writen_loop n ws (tot_written + suc k) (drop (suc k) buf) (out ++ take (suc k) buf) in
    if ltb tot_written n then rest else sent tot_written out

unfoldable pub writen : ℕ → List ℕ → List WriteReturn → WritenResult
unfolding writen_loop
writen n buffer ws = writen_loop n ws 0 buffer []
