-- ===== src/Sockets/Seqnum.antt =====
-- The server of book-src/sockets/is_seqnum_sv.c: it grants ranges of sequence numbers, one client
-- after the other. `atoi` is the C library's; a reply that cannot be written is only reported.
pub mod Bounds
pub mod Ranges
use linux_programming_interf.Common.{
  ℕ, ◌+◌, ◌%◌, ◌^◌, some, List, [], ◌∷◌, ◌==◌, if◌then◌else◌, replicate,
}
use linux_programming_interf.Common.Int.{ℤ, pos, negsuc}
use linux_programming_interf.Sockets.ReadLine.{
  ReadEvent, LineResult, line, failed, waiting, fault, read_line,
}

abbrev pub int_len : ℕ
int_len = 30

-- What accept() gives: -1, or a socket with what its reads return.
pub data Connection : Type 0 where
  accept_failed : Connection
  accepted : List ReadEvent → Connection

-- One round of the loop: the next `seqNum`, with the range that was granted; or a read() that
-- blocks, or a write past the end of `reqLenStr`.
pub data Reply : Type 0 where
  skipped : ℕ → Reply
  granted : ℕ → ℕ → ℕ → Reply
  hung : Reply
  overrun : Reply

-- `seqNum` is a uint32_t.
unfoldable pub grant : ℕ → ℤ → Reply
grant seq_num (negsuc k) = skipped seq_num
grant seq_num (pos req_len) =
    if req_len == 0 then skipped seq_num else granted seq_num req_len ((seq_num + req_len) % 2 ^ 32)

unfoldable pub answer : (List ℕ → ℤ) → ℕ → LineResult → Reply
unfolding grant
answer atoi seq_num (line n req_len_str rest) =
    if n == 0 then skipped seq_num else grant seq_num (atoi req_len_str)
answer atoi seq_num (failed e req_len_str rest) = skipped seq_num
answer atoi seq_num waiting = hung
answer atoi seq_num fault = overrun

unfoldable pub serve : (List ℕ → ℤ) → ℕ → Connection → Reply
unfolding answer
serve atoi seq_num accept_failed = skipped seq_num
serve atoi seq_num (accepted events) =
    answer atoi seq_num (read_line int_len (some (replicate int_len 0)) events)

-- The ranges of a round and, by `rest`, of those that follow it from the next number on. A server
-- that hangs or has overrun its buffer grants no more.
abbrev pub after : (ℕ → List (ℕ × ℕ)) → Reply → List (ℕ × ℕ)
after rest (skipped next) = rest next
after rest (granted first len next) = (first, len) ∷ rest next
after rest hung = []
after rest overrun = []

-- The ranges that the server grants, each with its first number and its length.
unfoldable pub serve_all : (List ℕ → ℤ) → ℕ → List Connection → List (ℕ × ℕ)
unfolding serve
serve_all atoi seq_num [] = []
serve_all atoi seq_num (c ∷ cs) = after (λ next. serve_all atoi next cs) (serve atoi seq_num c)

-- What the calls on one address of getaddrinfo()'s list come to.
pub data Attempt : Type 0 where
  no_socket : Attempt
  no_option : Attempt
  not_bound : Attempt
  bound : Attempt

-- The end of the walk through the list: a bound socket, with the addresses not tried, or an exit.
pub data Bound : Type 0 where
  listening : List Attempt → Bound
  setsockopt_exit : Bound
  no_address_exit : Bound

unfoldable pub bind_first : List Attempt → Bound
bind_first [] = no_address_exit
bind_first (no_socket ∷ rps) = bind_first rps
bind_first (no_option ∷ rps) = setsockopt_exit
bind_first (not_bound ∷ rps) = bind_first rps
bind_first (bound ∷ rps) = listening rps
