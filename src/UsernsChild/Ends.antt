-- ===== src/UsernsChild/Ends.antt =====
-- How the two processes come to their end.
use linux_programming_interf.Common.{
  ℕ, ◌+◌, ◌<◌, ◌≡◌, refl, Bool, true, false, ◌⊎◌, inl, inr, arith,
}
use linux_programming_interf.UsernsChild.{CmdOptions}
use linux_programming_interf.UsernsChild.Maps.{Writes, ParentKernel, update_child_maps}
use linux_programming_interf.UsernsChild.Capabilities.{CapKernel}
use linux_programming_interf.UsernsChild.Repeatable.{
  Performed, continues, exits, faults, perform_repeatable_options,
}
use linux_programming_interf.UsernsChild.Sync.{
  Parent, mapping, mapped, waiting, parent_failed, wait_failed, parent_done, Child, starting,
  reading, performing, executing, child_failed, command_over, child_over, Calls, parent_has_end,
  Both, Step, maps_updated, maps_failed, closes_end, waited, wait_fails, closes_own_end,
  end_of_file, read_fails, performed, execvp_fails, option_exits, option_faults, command_ends,
}

-- The child is over, or the command runs.
abbrev pub child_settled : Child → Bool
child_settled executing = true
child_settled child_failed = true
child_settled command_over = true
child_settled _ = false

-- Both processes are over; or the command runs, and the parent waits for it or is over.
abbrev pub both_settled : Parent → Child → Bool
both_settled mapping c = false
both_settled mapped c = false
both_settled waiting executing = true
both_settled waiting c = false
both_settled parent_failed c = child_settled c
both_settled wait_failed c = child_settled c
both_settled parent_done c = child_over c

abbrev parent_left : Parent → ℕ
parent_left mapping = 3
parent_left mapped = 2
parent_left waiting = 1
parent_left parent_failed = 0
parent_left wait_failed = 0
parent_left parent_done = 0

abbrev child_left : Child → ℕ
child_left starting = 4
child_left reading = 3
child_left performing = 2
child_left executing = 1
child_left child_failed = 0
child_left command_over = 0

-- The steps that are left at most.
abbrev pub steps_left : {k : CapKernel} → Both k → ℕ
steps_left s = parent_left s.parent + child_left s.child

module _ (calls : Calls) (p : ParentKernel) (k : CapKernel) (opts : CmdOptions) where
  abbrev pub CanGoOn : Both k → Type 0
  CanGoOn s = (t : Both k) × Step calls p k opts s t

  maps_step :
      (s : Both k) (r : Bool × Writes)
      → s.parent ≡ mapping
      → update_child_maps p opts s.log ≡ r
      → CanGoOn s
  maps_step s (true, log) at_maps e = (_, maps_updated log at_maps e)
  maps_step s (false, log) at_maps e = (_, maps_failed log at_maps e)

  command_step :
      (s : Both k) (process : k.State) (works : Bool)
      → s.child ≡ performing
      → perform_repeatable_options k opts.opt_list s.process ≡ continues process
      → calls.execvp_works ≡ works
      → CanGoOn s
  command_step s process true at_options e works = (_, performed process at_options e works)
  command_step s process false at_options e works = (_, execvp_fails process at_options e works)

  options_step :
      (s : Both k) (r : Performed k.State)
      → s.child ≡ performing
      → perform_repeatable_options k opts.opt_list s.process ≡ r
      → CanGoOn s
  options_step s (continues process) at_options e =
      command_step s process calls.execvp_works at_options e refl
  options_step s exits at_options e = (_, option_exits at_options e)
  options_step s faults at_options e = (_, option_faults at_options e)

  -- Behind the close of the parent's end the child is over, runs the command, or can make a step.
  child_step :
      (s : Both k) (c : Child)
      → s.child ≡ c
      → parent_has_end s.parent ≡ false
      → (child_settled c ≡ true) ⊎ CanGoOn s
  child_step s starting e closed = inr (_, closes_own_end e)
  child_step s reading e closed = inr (_, end_of_file e closed)
  child_step s performing e closed =
      inr (options_step s (perform_repeatable_options k opts.opt_list s.process) e refl)
  child_step s executing e closed = inl refl
  child_step s child_failed e closed = inl refl
  child_step s command_over e closed = inl refl

  waiting_step :
      (s : Both k) (c : Child)
      → s.parent ≡ waiting
      → s.child ≡ c
      → child_settled c ≡ true
      → (both_settled waiting c ≡ true) ⊎ CanGoOn s
  waiting_step s starting e f h = cc
  waiting_step s reading e f h = cc
  waiting_step s performing e f h = cc
  waiting_step s executing e f h = inl refl
  waiting_step s child_failed e f h = inr (_, waited e (rw f refl))
  waiting_step s command_over e f h = inr (_, waited e (rw f refl))

  done_step :
      (s : Both k) (c : Child)
      → s.child ≡ c
      → child_settled c ≡ true
      → (both_settled parent_done c ≡ true) ⊎ CanGoOn s
  done_step s starting f h = cc
  done_step s reading f h = cc
  done_step s performing f h = cc
  done_step s executing f h = inr (_, command_ends f)
  done_step s child_failed f h = inl refl
  done_step s command_over f h = inl refl

  both_step : (s : Both k) (q : Parent) → s.parent ≡ q → (both_settled q s.child ≡ true) ⊎ CanGoOn s
  both_step s mapping e = inr (maps_step s (update_child_maps p opts s.log) e refl)
  both_step s mapped e = inr (_, closes_end e)
  both_step s waiting e = elim (child_step s s.child refl (rw e refl)) [
    | inl settled ↦ waiting_step s s.child e refl settled
    | inr goes_on ↦ inr goes_on
  ]
  both_step s parent_failed e = child_step s s.child refl (rw e refl)
  both_step s wait_failed e = child_step s s.child refl (rw e refl)
  both_step s parent_done e = elim (child_step s s.child refl (rw e refl)) [
    | inl settled ↦ done_step s s.child refl settled
    | inr goes_on ↦ inr goes_on
  ]

  Step-fewer : (s t : Both k) → Step calls p k opts s t → steps_left t < steps_left s
  Step-fewer s _ (maps_updated log e f) = rw e (omega arith)
  Step-fewer s _ (maps_failed log e f) = rw e (omega arith)
  Step-fewer s _ (closes_end e) = rw e (omega arith)
  Step-fewer s _ (waited e f) = rw e (omega arith)
  Step-fewer s _ (wait_fails e f) = rw e (omega arith)
  Step-fewer s _ (closes_own_end e) = rw e (omega arith)
  Step-fewer s _ (end_of_file e f) = rw e (omega arith)
  Step-fewer s _ (read_fails e f) = rw e (omega arith)
  Step-fewer s _ (execvp_fails process e f g) = rw e (omega arith)
  Step-fewer s _ (performed process e f g) = rw e (omega arith)
  Step-fewer s _ (option_exits e f) = rw e (omega arith)
  Step-fewer s _ (option_faults e f) = rw e (omega arith)
  Step-fewer s _ (command_ends e) = rw e (omega arith)

-- The two processes neither wait for each other for ever nor run on, whether or not read() and
-- waitpid() can fail: in every state both are over, or the command runs and the parent waits for it or
-- is over, or one of the processes can make a step; and each step leaves fewer than there were, of at
-- most seven.
pub both_ends :
    (calls : Calls) (p : ParentKernel) (k : CapKernel) (opts : CmdOptions) (s : Both k)
    → ((both_settled s.parent s.child ≡ true) ⊎ CanGoOn calls p k opts s)
      × ((t : Both k) → Step calls p k opts s t → steps_left t < steps_left s)
      × (steps_left s < 8)
both_ends calls p k opts s = (
  both_step calls p k opts s s.parent refl,
  (λ t step. Step-fewer calls p k opts s t step),
  at_most s.parent s.child,
)
  where
    at_most : (q : Parent) (c : Child) → parent_left q + child_left c < 8
    at_most q c = omega (arith, of_parent q, of_child c)
      where
        of_parent : (q : Parent) → parent_left q < 4
        of_parent mapping = omega arith
        of_parent mapped = omega arith
        of_parent waiting = omega arith
        of_parent parent_failed = omega arith
        of_parent wait_failed = omega arith
        of_parent parent_done = omega arith

        of_child : (c : Child) → child_left c < 5
        of_child starting = omega arith
        of_child reading = omega arith
        of_child performing = omega arith
        of_child executing = omega arith
        of_child child_failed = omega arith
        of_child command_over = omega arith
