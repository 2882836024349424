-- ===== src/UsernsChild/Sync.antt =====
-- `main` and childFunc of book-src/namespaces/userns_child_exec.c, from clone() on, as the steps of two
-- processes that share a pipe. read() on the pipe, to which nobody writes, blocks until no process has
-- the write end, and returns 0 then; whether it can fail instead, whether execvp() works and whether
-- waitpid() can fail is given.
use linux_programming_interf.Common.{
  ◌≡◌, Bool, true, false, ◌&&◌, Option, none, some, [], if◌then◌else◌,
}
use linux_programming_interf.UsernsChild.{CmdOptions, Parsed, accepted, usage, too_many}
use linux_programming_interf.UsernsChild.Maps.{Writes, ParentKernel, update_child_maps}
use linux_programming_interf.UsernsChild.Capabilities.{CapKernel}
use linux_programming_interf.UsernsChild.Repeatable.{
  continues, exits, faults, perform_repeatable_options,
}

-- In update_child_maps; behind it; in waitpid(), its write end closed; over, by errExit() in
-- update_child_maps, by errExit() for waitpid(), or behind waitpid().
pub data Parent : Type 0 where
  mapping : Parent
  mapped : Parent
  waiting : Parent
  parent_failed : Parent
  wait_failed : Parent
  parent_done : Parent

-- Before close(pipe_fd[1]); in read(); in perform_repeatable_options; in the command; over with
-- EXIT_FAILURE or a fault; over behind the command.
pub data Child : Type 0 where
  starting : Child
  reading : Child
  performing : Child
  executing : Child
  child_failed : Child
  command_over : Child

abbrev pub child_over : Child → Bool
child_over child_failed = true
child_over command_over = true
child_over _ = false

-- What the calls answer.
pub record Calls : Type 0 where
  pub read_can_fail : Bool
  pub execvp_works : Bool
  pub waitpid_can_fail : Bool

-- The descriptor is closed by the program, or by the end of the process.
abbrev pub parent_has_end : Parent → Bool
parent_has_end mapping = true
parent_has_end mapped = true
parent_has_end _ = false

pub record Both (k : CapKernel) : Type 0 where
  pub parent : Parent
  pub child : Child
  pub log : Writes
  pub process : k.State

module _ (calls : Calls) (p : ParentKernel) (k : CapKernel) (opts : CmdOptions) where
  pub data Step (s : Both k) : Both k → Type 0 where
    maps_updated :
        (log : Writes)
        → s.parent ≡ mapping
        → update_child_maps p opts s.log ≡ (true, log)
        → Step s (record s { parent = mapped; log = log })
    maps_failed :
        (log : Writes)
        → s.parent ≡ mapping
        → update_child_maps p opts s.log ≡ (false, log)
        → Step s (record s { parent = parent_failed; log = log })
    closes_end : s.parent ≡ mapped → Step s (record s { parent = waiting })
    waited :
        s.parent ≡ waiting → child_over s.child ≡ true → Step s (record s { parent = parent_done })
    wait_fails :
        s.parent ≡ waiting
        → calls.waitpid_can_fail ≡ true
        → Step s (record s { parent = wait_failed })
    closes_own_end : s.child ≡ starting → Step s (record s { child = reading })
    end_of_file :
        s.child ≡ reading
        → parent_has_end s.parent ≡ false
        → Step s (record s { child = performing })
    read_fails :
        s.child ≡ reading → calls.read_can_fail ≡ true → Step s (record s { child = child_failed })
    performed :
        (process : k.State)
        → s.child ≡ performing
        → perform_repeatable_options k opts.opt_list s.process ≡ continues process
        → calls.execvp_works ≡ true
        → Step s (record s { child = executing; process = process })
    execvp_fails :
        (process : k.State)
        → s.child ≡ performing
        → perform_repeatable_options k opts.opt_list s.process ≡ continues process
        → calls.execvp_works ≡ false
        → Step s (record s { child = child_failed; process = process })
    option_exits :
        s.child ≡ performing
        → perform_repeatable_options k opts.opt_list s.process ≡ exits
        → Step s (record s { child = child_failed })
    option_faults :
        s.child ≡ performing
        → perform_repeatable_options k opts.opt_list s.process ≡ faults
        → Step s (record s { child = child_failed })
    command_ends : s.child ≡ executing → Step s (record s { child = command_over })

-- Behind clone().
abbrev pub cloned : (k : CapKernel) → k.State → Both k
cloned k process = record { parent = mapping; child = starting; log = []; process = process }

-- `main` up to clone(), by what prctl(), pipe(), mmap() and clone() answer; `none` is an exit.
unfoldable pub main_started :
    (k : CapKernel) → Parsed → Bool → Bool → Bool → Bool → k.State → Option (CmdOptions × Both k)
main_started k (accepted opts) dumpable pipe_made stack_mapped child_made process =
    if dumpable && pipe_made && stack_mapped && child_made
    then some (opts, cloned k process)
    else none
main_started k usage dumpable pipe_made stack_mapped child_made process = none
main_started k too_many dumpable pipe_made stack_mapped child_made process = none
