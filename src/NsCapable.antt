-- ===== src/NsCapable.antt =====
-- book-src/namespaces/ns_capable.c: which capabilities a process has in the user namespace of a file.
pub mod Kernel
pub mod Main
mod Walk
mod Above
mod Decide
mod Rules
mod Status
mod Exit
mod Tests
use linux_programming_interf.Common.{
  ℕ, zero, suc, ◌≡◌, Bool, true, false, ◌&&◌, not, Option, none, some, List, [], ◌∷◌, ◌++◌, ◌==◌,
  if◌then◌else◌,
}
use linux_programming_interf.Common.Text.{CString}
use linux_programming_interf.NsCapable.Kernel.{
  Stat, ParentResult, parent_fd, eperm, other_error, NsKernel,
}

-- Both the device and the inode match.
abbrev pub same_stat : Stat → Stat → Bool
same_stat sb1 sb2 = sb1.st_dev == sb2.st_dev && sb1.st_ino == sb2.st_ino

-- `none` where the program exits by `errExit`.
abbrev pub compare_stats : Option Stat → Option Stat → Option Bool
compare_stats none sb2 = none
compare_stats (some sb1) none = none
compare_stats (some sb1) (some sb2) = some (same_stat sb1 sb2)

-- What `is_ancestor_userns` returns: -1 or a descriptor, with the table of the descriptors. It does not
-- return where the program exits; `out_of_fuel` is the loop that is not followed to its end.
pub data WalkResult (P : Type 0) : Type 0 where
  no_ancestor : P → WalkResult P
  descendant : ℕ → P → WalkResult P
  exits : WalkResult P
  out_of_fuel : WalkResult P

-- The messages on the standard output, one for each verdict and one for the sets of capabilities.
pub data Report : Type 0 where
  in_target : Report
  not_in_ancestor : Report
  has_all : Report
  has_own : Report
  capabilities : CString → Report

-- What the process has printed, and whether it exits with EXIT_SUCCESS.
pub record Outcome : Type 0 where
  pub printed : List Report
  pub success : Bool

abbrev pub failed_after : List Report → Outcome
failed_after printed = record { printed = printed; success = false }

module _ (k : NsKernel) where
  unfoldable pub ns_equal : k.Table → ℕ → ℕ → Option Bool
  ns_equal p nsfd1 nsfd2 = compare_stats (k.fstat p nsfd1) (k.fstat p nsfd2)

  -- The round of the loop from the comparison on; `walk` is the loop from the next round on.
  unfoldable pub compared :
      (k.Table → ℕ → WalkResult k.Table) → k.Table → ℕ → ℕ → Option Bool → WalkResult k.Table
  compared walk p child parent none = exits
  compared walk p child parent (some true) = descendant child (k.close p parent).1
  compared walk p child parent (some false) = walk (k.close p child).1 parent

  unfoldable pub with_parent :
      (k.Table → ℕ → WalkResult k.Table) → ℕ → ℕ → ParentResult × k.Table → WalkResult k.Table
  unfolding ns_equal compared
  with_parent walk fd_x child (parent_fd parent, p) =
      compared walk p child parent (ns_equal p parent fd_x)
  with_parent walk fd_x child (eperm, p) = no_ancestor p
  with_parent walk fd_x child (other_error, p) = exits

  -- The loop, for a number of rounds.
  unfoldable pub is_ancestor_userns : ℕ → ℕ → k.Table → ℕ → WalkResult k.Table
  unfolding with_parent
  is_ancestor_userns zero fd_x p child = out_of_fuel
  is_ancestor_userns (suc rounds) fd_x p child =
      with_parent (is_ancestor_userns rounds fd_x) fd_x child (k.get_parent p child)
