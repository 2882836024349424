-- ===== src/Svshm/Delivery.antt =====
-- The turns of the two programs, and what the reader writes against what the writer reads.
use linux_programming_interf.Common.{ℕ, ◌≡◌, refl, sym, ◌∙◌, List, [], ◌∷◌, ◌++◌}
use mathlib.Core.List.{append_assoc, append-nil}
use linux_programming_interf.Common.Steps.{Run, Run-keeps}
use linux_programming_interf.Svshm.{
  reserve, Writer, reserving, reading, releasing, testing, finishing, deleted, r_reserving,
  r_checking, r_releasing, r_leaving, r_left, Block, block, System, system, Step, write_turn,
  read_block, read_eof, give_read, no_eof, eof, last_turn, read_turn, copy_out, leave, give_write,
  give_last, initial,
}

-- The bytes of all blocks, in order.
abbrev pub joined : List Block → List ℕ
joined [] = []
joined (block x xs ∷ bs) = (x ∷ xs) ++ joined bs

-- Where the writer can be once a block is in the segment and the reader has its turn.
pub data After : Writer → List ℕ → Type 0 where
  after_testing : {buf : List ℕ} → After testing buf
  after_reserving : {x : ℕ} {xs : List ℕ} → After reserving (x ∷ xs)
  after_finishing : After finishing []

-- An empty block in the segment is the last one.
pub data Last : List ℕ → List Block → Type 0 where
  more : {x : ℕ} {xs : List ℕ} {input : List Block} → Last (x ∷ xs) input
  over : Last [] []

-- The turns, with what is still to come of the bytes `all`.
pub data Inv : List ℕ → System → Type 0 where
  writer_first :
      {all buf out : List ℕ} {input : List Block}
      → out ++ joined input ≡ all
      → Inv all (system reserving r_reserving 1 0 buf input out)
  writer_tests :
      {all xs out : List ℕ} {x : ℕ} {input : List Block}
      → out ++ joined input ≡ all
      → Inv all (system testing r_reserving 1 0 (x ∷ xs) input out)
  writer_reads :
      {all buf out : List ℕ} {input : List Block}
      → out ++ joined input ≡ all
      → Inv all (system reading r_reserving 0 0 buf input out)
  writer_releases :
      {all buf out : List ℕ} {input : List Block}
      → Last buf input
      → out ++ (buf ++ joined input) ≡ all
      → Inv all (system releasing r_reserving 0 0 buf input out)
  reader_first :
      {w : Writer} {all buf out : List ℕ} {input : List Block}
      → After w buf
      → Last buf input
      → out ++ (buf ++ joined input) ≡ all
      → Inv all (system w r_reserving 0 1 buf input out)
  reader_checks :
      {w : Writer} {all buf out : List ℕ} {input : List Block}
      → After w buf
      → Last buf input
      → out ++ (buf ++ joined input) ≡ all
      → Inv all (system w r_checking 0 0 buf input out)
  reader_releases :
      {w : Writer} {all xs out : List ℕ} {x : ℕ} {input : List Block}
      → After w (x ∷ xs)
      → out ++ joined input ≡ all
      → Inv all (system w r_releasing 0 0 (x ∷ xs) input out)
  reader_leaves :
      {w : Writer} {all out : List ℕ}
      → After w []
      → out ≡ all
      → Inv all (system w r_leaving 0 0 [] [] out)
  reader_left :
      {w : Writer} {all out : List ℕ}
      → After w []
      → out ≡ all
      → Inv all (system w r_left 1 0 [] [] out)
  both_left : {all out : List ℕ} → out ≡ all → Inv all (system deleted r_left 0 0 [] [] out)

Step-Inv : (all : List ℕ) (s t : System) → Step s t → Inv all s → Inv all t
Step-Inv all _ _ (write_turn (reserve v)) (writer_first e) = writer_reads e
Step-Inv all _ _ (write_turn (reserve v)) (reader_first a l e) = elim v [ ]
Step-Inv all _ _ (write_turn (reserve v)) (reader_checks a l e) = elim v [ ]
Step-Inv all _ _ (write_turn (reserve v)) (reader_releases a e) = elim v [ ]
Step-Inv all _ _ (write_turn (reserve v)) (reader_leaves a e) = elim v [ ]
Step-Inv all _ _ (write_turn (reserve v)) (reader_left a e) = elim a [ ]
Step-Inv all _ _ read_block (reader_first a l e) = elim a [ ]
Step-Inv all _ _ read_block (reader_checks a l e) = elim a [ ]
Step-Inv all _ _ read_block (reader_releases a e) = elim a [ ]
Step-Inv all _ _ read_eof (reader_first a l e) = elim a [ ]
Step-Inv all _ _ read_eof (reader_checks a l e) = elim a [ ]
Step-Inv all _ _ read_eof (reader_releases a e) = elim a [ ]
Step-Inv all _ _ read_eof (reader_leaves a e) = elim a [ ]
Step-Inv all _ _ read_eof (reader_left a e) = elim a [ ]
Step-Inv all _ _ give_read (reader_first a l e) = elim a [ ]
Step-Inv all _ _ give_read (reader_checks a l e) = elim a [ ]
Step-Inv all _ _ give_read (reader_releases a e) = elim a [ ]
Step-Inv all _ _ give_read (reader_leaves a e) = elim a [ ]
Step-Inv all _ _ give_read (reader_left a e) = elim a [ ]
Step-Inv all _ _ read_block (writer_reads e) = writer_releases more e
Step-Inv all _ _ read_eof (writer_reads e) = writer_releases over e
Step-Inv all _ _ give_read (writer_releases l e) = reader_first after_testing l e
Step-Inv all _ _ no_eof (writer_tests e) = writer_first e
Step-Inv all _ _ no_eof (reader_first a l e) = reader_first after_reserving l e
Step-Inv all _ _ no_eof (reader_checks a l e) = reader_checks after_reserving l e
Step-Inv all _ _ no_eof (reader_releases a e) = reader_releases after_reserving e
Step-Inv all _ _ eof (reader_first a l e) = reader_first after_finishing l e
Step-Inv all _ _ eof (reader_checks a l e) = reader_checks after_finishing l e
Step-Inv all _ _ eof (reader_leaves a e) = reader_leaves after_finishing e
Step-Inv all _ _ eof (reader_left a e) = reader_left after_finishing e
Step-Inv all _ _ (last_turn (reserve v)) (reader_first a l e) = elim v [ ]
Step-Inv all _ _ (last_turn (reserve v)) (reader_checks a l e) = elim v [ ]
Step-Inv all _ _ (last_turn (reserve v)) (reader_releases a e) = elim v [ ]
Step-Inv all _ _ (last_turn (reserve v)) (reader_leaves a e) = elim v [ ]
Step-Inv all _ _ (last_turn (reserve v)) (reader_left a e) = both_left e
Step-Inv all _ _ (read_turn (reserve v)) (writer_first e) = elim v [ ]
Step-Inv all _ _ (read_turn (reserve v)) (writer_tests e) = elim v [ ]
Step-Inv all _ _ (read_turn (reserve v)) (writer_reads e) = elim v [ ]
Step-Inv all _ _ (read_turn (reserve v)) (writer_releases l e) = elim v [ ]
Step-Inv all _ _ (read_turn (reserve v)) (reader_first a l e) = reader_checks a l e
Step-Inv all _ _ (copy_out {x = x} {xs = xs} {out = out} {input = input}) (reader_checks a l e) =
    reader_releases a (append_assoc out (x ∷ xs) (joined input) ∙ e)
Step-Inv all _ _ (leave {out = out}) (reader_checks a over e) =
    reader_leaves a (sym (append-nil out) ∙ e)
Step-Inv all _ _ give_write (reader_releases after_testing e) = writer_tests e
Step-Inv all _ _ give_write (reader_releases after_reserving e) = writer_first e
Step-Inv all _ _ give_last (reader_leaves a e) = reader_left a e

-- In every reachable state, one of the two programs has the turn, with the rest of the bytes to come.
pub reached-Inv :
    (buf : List ℕ) (input : List Block) (s : System)
    → Run Step (initial buf input) s
    → Inv (joined input) s
reached-Inv buf input s run =
    Run-keeps Step (λ t. Inv (joined input) t) (λ t u h step. Step-Inv (joined input) t u step h)
      (initial buf input) s (writer_first refl) run

left_all :
    (all : List ℕ) (w : Writer) (ws rs : ℕ) (buf : List ℕ) (input : List Block) (out : List ℕ)
    → Inv all (system w r_left ws rs buf input out)
    → out ≡ all
left_all all _ _ _ _ _ _ (reader_left a e) = e
left_all all _ _ _ _ _ _ (both_left e) = e

-- svshm_xfr: when the reader has left, in whatever order the two programs ran, it has written exactly
-- the bytes that the writer read, in order, whatever the segment held at first.
pub left-delivered :
    (buf0 : List ℕ) (input0 : List Block) (w : Writer) (ws rs : ℕ) (buf : List ℕ)
    (input : List Block) (out : List ℕ)
    → Run Step (initial buf0 input0) (system w r_left ws rs buf input out)
    → out ≡ joined input0
left-delivered buf0 input0 w ws rs buf input out run =
    left_all (joined input0) w ws rs buf input out (reached-Inv buf0 input0 _ run)
