-- ===== src/Sockets/Tests.antt =====
-- Runs of the socket helpers, and their theorems at concrete inputs.
use linux_programming_interf.Common.{◌-◌, ◌≡◌, refl, some, List, [], ◌∷◌, arith, ℕ}
use linux_programming_interf.Sockets.ReadLine.{ReadEvent, byte, error, eintr, line, read_line}
use linux_programming_interf.Common.Int.{ℤ, pos}
use linux_programming_interf.Sockets.Seqnum.{Connection, accept_failed, accepted, serve_all}
use linux_programming_interf.Sockets.Seqnum.Ranges.{Ascending, serve_all-Ascending}
use linux_programming_interf.Sockets.Rdwrn.{
  ReadReturn, received, read_error, returned, readn, wrote, write_error, writen,
}
use linux_programming_interf.Sockets.ReadLineBuf.{counted, read_line_buf}
use linux_programming_interf.Sockets.Rdwrn.Readn.{Outcome, readn-Outcome}
use linux_programming_interf.Sockets.Rdwrn.Writen.{Written, writen-Written}
use linux_programming_interf.Sockets.ReadLine.Lines.{scan, read_line-scan}

abbrev five : List ℕ
five = 9 ∷ 9 ∷ 9 ∷ 9 ∷ 9 ∷ []

abbrev events : List ReadEvent
events = byte b'a' ∷ error eintr ∷ byte b'b' ∷ byte b'\n' ∷ byte b'c' ∷ []

read_line_cut :
    read_line 3 (some five) events ≡ line 2 (b'a' ∷ b'b' ∷ 0 ∷ 9 ∷ 9 ∷ []) (byte b'c' ∷ [])
unfolding read_line
read_line_cut = refl

read_line-scan_example :
    read_line 5 (some five) events ≡ line 3 (b'a' ∷ b'b' ∷ b'\n' ∷ 0 ∷ 9 ∷ []) (byte b'c' ∷ [])
unfolding scan
read_line-scan_example = read_line-scan 5 five events (omega arith) (omega arith)

abbrev four : List ℕ
four = 9 ∷ 9 ∷ 9 ∷ 9 ∷ []

abbrev reads : List ReadReturn
reads = received (1 ∷ 2 ∷ []) ∷ read_error eintr ∷ received (3 ∷ 4 ∷ []) ∷ received (5 ∷ []) ∷ []

readn_restarted : readn 4 four reads ≡ returned 4 (1 ∷ 2 ∷ 3 ∷ 4 ∷ []) (received (5 ∷ []) ∷ [])
unfolding readn
readn_restarted = refl

readn-Outcome_example : Outcome 5 [] five reads (readn 5 five reads)
readn-Outcome_example =
    readn-Outcome 5 five reads (omega arith) (omega arith, (omega arith, (omega arith, tt)))

writen-Written_example :
    Written 3
      (1 ∷ 2 ∷ 3 ∷ [])
      (writen 3 (1 ∷ 2 ∷ 3 ∷ []) (wrote 1 ∷ write_error eintr ∷ wrote 2 ∷ []))
writen-Written_example =
    writen-Written 3 (1 ∷ 2 ∷ 3 ∷ []) (wrote 1 ∷ write_error eintr ∷ wrote 2 ∷ [])
      (omega arith, (omega arith, tt))

-- The number of the first character only.
abbrev digit : List ℕ → ℤ
digit [] = pos 0
digit (x ∷ xs) = pos (x - b'0')

abbrev clients : List Connection
clients =
    accepted (byte b'3' ∷ byte b'\n' ∷ [])
    ∷ accept_failed
    ∷ accepted (byte b'0' ∷ byte b'\n' ∷ [])
    ∷ accepted (byte b'2' ∷ byte b'\n' ∷ [])
    ∷ []

two_ranges : serve_all digit 7 clients ≡ (7, 3) ∷ (10, 2) ∷ []
unfolding serve_all read_line
two_ranges = refl

serve_all-Ascending_example : Ascending 7 (serve_all digit 7 clients)
serve_all-Ascending_example = serve_all-Ascending digit 7 clients (rw two_ranges (omega arith))

two_blocks :
    read_line_buf 3 (some five) (b'a' ∷ []) (received (b'b' ∷ b'\n' ∷ b'c' ∷ []) ∷ [])
    ≡ counted 3 (b'a' ∷ b'b' ∷ b'\n' ∷ 9 ∷ 9 ∷ []) (b'c' ∷ []) []
unfolding read_line_buf
two_blocks = refl
