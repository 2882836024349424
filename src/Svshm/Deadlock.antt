-- ===== src/Svshm/Deadlock.antt =====
-- The waits of the two programs for each other.
use linux_programming_interf.Common.{ℕ, ◌⊎◌, inl, inr, arith, List, [], ◌∷◌}
use linux_programming_interf.Common.Steps.{Run}
use linux_programming_interf.Svshm.{
  reserve, deleted, r_left, Block, block, System, system, Step, write_turn, read_block, read_eof,
  give_read, no_eof, last_turn, read_turn, copy_out, leave, give_write, give_last, initial, eof,
}
use linux_programming_interf.Svshm.Delivery.{
  joined, after_testing, after_finishing, more, over, Inv, writer_first, writer_tests, writer_reads,
  writer_releases, reader_first, reader_checks, reader_releases, reader_leaves, reader_left,
  both_left, reached-Inv,
}

-- Both programs are past their last call.
pub data BothLeft : System → Type 0 where
  ended :
      {ws rs : ℕ} {buf out : List ℕ} {input : List Block}
      → BothLeft (system deleted r_left ws rs buf input out)

abbrev pub CanStep : System → Type 0
CanStep s = (t : System) × Step s t

Inv-CanStep : (all : List ℕ) (s : System) → Inv all s → BothLeft s ⊎ CanStep s
Inv-CanStep all _ (writer_first e) = inr (_, write_turn (reserve (omega arith)))
Inv-CanStep all _ (writer_tests e) = inr (_, no_eof)
Inv-CanStep all _ (writer_reads {input = []} e) = inr (_, read_eof)
Inv-CanStep all _ (writer_reads {input = block x xs ∷ input} e) = inr (_, read_block)
Inv-CanStep all _ (writer_releases l e) = inr (_, give_read)
Inv-CanStep all _ (reader_first a l e) = inr (_, read_turn (reserve (omega arith)))
Inv-CanStep all _ (reader_checks a more e) = inr (_, copy_out)
Inv-CanStep all _ (reader_checks a over e) = inr (_, leave)
Inv-CanStep all _ (reader_releases a e) = inr (_, give_write)
Inv-CanStep all _ (reader_leaves a e) = inr (_, give_last)
Inv-CanStep all _ (reader_left after_testing e) = inr (_, eof)
Inv-CanStep all _ (reader_left after_finishing e) = inr (_, last_turn (reserve (omega arith)))
Inv-CanStep all _ (both_left e) = inl ended

-- svshm_xfr: no deadlock. In every state that the two programs reach, both are past their last call
-- or one of them can make a step.
pub reached-CanStep :
    (buf : List ℕ) (input : List Block) (s : System)
    → Run Step (initial buf input) s
    → BothLeft s ⊎ CanStep s
reached-CanStep buf input s run = Inv-CanStep (joined input) s (reached-Inv buf input s run)
