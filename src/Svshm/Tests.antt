-- ===== src/Svshm/Tests.antt =====
-- A run of the two programs with one block, and the theorems at its states.
use linux_programming_interf.Common.{◌≡◌, ◌⊎◌, arith, List, [], ◌∷◌}
use linux_programming_interf.Common.Steps.{Run, start, then}
use linux_programming_interf.Svshm.{
  reserve, testing, deleted, r_left, r_reserving, Block, block, system, Step, write_turn,
  read_block, read_eof, give_read, no_eof, eof, last_turn, read_turn, copy_out, leave, give_write,
  give_last, initial,
}
use linux_programming_interf.Svshm.Delivery.{joined, left-delivered}
use linux_programming_interf.Svshm.Deadlock.{BothLeft, CanStep, reached-CanStep}

abbrev blocks : List Block
blocks = block 5 (6 ∷ []) ∷ []

-- The first block is in the segment, and the reader has its turn.
given : Run Step (initial [] blocks) (system testing r_reserving 0 1 (5 ∷ 6 ∷ []) [] [])
given = then (then (then start (write_turn (reserve (omega arith)))) read_block) give_read

copied : Run Step (initial [] blocks) (system testing r_reserving 1 0 (5 ∷ 6 ∷ []) [] (5 ∷ 6 ∷ []))
copied = then (then (then given (read_turn (reserve (omega arith)))) copy_out) give_write

last_given : Run Step (initial [] blocks) (system testing r_reserving 0 1 [] [] (5 ∷ 6 ∷ []))
last_given =
    then (then (then (then copied no_eof) (write_turn (reserve (omega arith)))) read_eof) give_read

both_gone : Run Step (initial [] blocks) (system deleted r_left 0 0 [] [] (5 ∷ 6 ∷ []))
both_gone =
    then
      (then (then (then (then last_given (read_turn (reserve (omega arith)))) leave) give_last) eof)
      (last_turn (reserve (omega arith)))

left-delivered_example : 5 ∷ 6 ∷ [] ≡ joined blocks
left-delivered_example = left-delivered [] blocks deleted 0 0 [] [] (5 ∷ 6 ∷ []) both_gone

reached-CanStep_example :
    BothLeft (system testing r_reserving 0 1 (5 ∷ 6 ∷ []) [] [])
    ⊎ CanStep (system testing r_reserving 0 1 (5 ∷ 6 ∷ []) [] [])
reached-CanStep_example = reached-CanStep [] blocks _ given
