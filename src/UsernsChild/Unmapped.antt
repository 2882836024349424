-- ===== src/UsernsChild/Unmapped.antt =====
-- The command, where the maps could not be written.
use linux_programming_interf.Common.{◌≡◌, refl, sym, ap, ◌∙◌, Bool, true, false, [], ◌⊎◌, inl, inr}
use linux_programming_interf.Common.Steps.{Run, start, then, Run-keeps}
use linux_programming_interf.UsernsChild.{CmdOptions}
use linux_programming_interf.UsernsChild.Maps.{Writes, ParentKernel, update_child_maps}
use linux_programming_interf.UsernsChild.Capabilities.{CapKernel}
use linux_programming_interf.UsernsChild.Repeatable.{
  continues, exits, faults, perform_repeatable_options,
}
use linux_programming_interf.UsernsChild.Sync.{
  Parent, mapping, mapped, waiting, parent_failed, wait_failed, parent_done, Child, starting,
  reading, performing, executing, child_failed, command_over, Calls, Both, Step, maps_updated,
  maps_failed, closes_end, waited, wait_fails, closes_own_end, end_of_file, read_fails, performed,
  execvp_fails, option_exits, option_faults, command_ends, cloned,
}
use linux_programming_interf.UsernsChild.Ends.{both_settled}

module _ (calls : Calls) (p : ParentKernel) (k : CapKernel) (opts : CmdOptions)
    (process after : k.State) (log : Writes) (fails : update_child_maps p opts [] ≡ (false, log))
    (goes_on : perform_repeatable_options k opts.opt_list process ≡ continues after)
    (reads : calls.read_can_fail ≡ false) (works : calls.execvp_works ≡ true) where
  ParentFails : Parent → Writes → Type 0
  ParentFails mapping written = written ≡ []
  ParentFails parent_failed written = written ≡ log
  ParentFails _ written = ⊥

  ChildGoesOn : Child → k.State → Type 0
  ChildGoesOn child_failed s = ⊥
  ChildGoesOn executing s = Unit
  ChildGoesOn command_over s = Unit
  ChildGoesOn _ s = s ≡ process

  IsUnmapped : Both k → Type 0
  IsUnmapped s = ParentFails s.parent s.log × ChildGoesOn s.child s.process

  at_child : (c d : Child) (s : k.State) → c ≡ d → ChildGoesOn c s → ChildGoesOn d s
  at_child c d s e h = rw e at h

  at_parent :
      (q r : Parent) (written : Writes) → q ≡ r → ParentFails q written → ParentFails r written
  at_parent q r written e h = rw e at h

  Step-IsUnmapped : (s t : Both k) → IsUnmapped s → Step calls p k opts s t → IsUnmapped t
  unfolding IsUnmapped ParentFails ChildGoesOn
  Step-IsUnmapped s _ (w, c) (maps_updated written at_maps e) =
      let nothing : s.log ≡ [] = rw at_maps at w in
      let done : update_child_maps p opts [] ≡ (true, written) = rw nothing at e in
      let no : ◌≡◌ {A = Bool} false true = ap (λ r. r.0) (sym fails ∙ done) in cc
  Step-IsUnmapped s _ (w, c) (maps_failed written at_maps e) =
      let nothing : s.log ≡ [] = rw at_maps at w in
      let done : update_child_maps p opts [] ≡ (false, written) = rw nothing at e in
      (ap (λ r. r.1) (sym done ∙ fails), c)
  Step-IsUnmapped s _ (w, c) (closes_end at_mapped) =
      absurd (at_parent s.parent mapped s.log at_mapped w)
  Step-IsUnmapped s _ (w, c) (waited at_wait over) =
      absurd (at_parent s.parent waiting s.log at_wait w)
  Step-IsUnmapped s _ (w, c) (wait_fails at_wait e) =
      absurd (at_parent s.parent waiting s.log at_wait w)
  Step-IsUnmapped s _ (w, c) (closes_own_end at_start) =
      (w, at_child s.child starting s.process at_start c)
  Step-IsUnmapped s _ (w, c) (end_of_file at_read no_end) =
      (w, at_child s.child reading s.process at_read c)
  Step-IsUnmapped s _ (w, c) (read_fails at_read e) = let no : ⊥ = cc in absurd no
  Step-IsUnmapped s _ (w, c) (performed t at_options e g) = (w, tt)
  Step-IsUnmapped s _ (w, c) (execvp_fails t at_options e g) = let no : ⊥ = cc in absurd no
  Step-IsUnmapped s _ (w, c) (option_exits at_options e) =
      let same : s.process ≡ process = at_child s.child performing s.process at_options c in
      let stops : continues after ≡ exits = sym goes_on ∙ (rw same at e) in cc
  Step-IsUnmapped s _ (w, c) (option_faults at_options e) =
      let same : s.process ≡ process = at_child s.child performing s.process at_options c in
      let stops : continues after ≡ faults = sym goes_on ∙ (rw same at e) in cc
  Step-IsUnmapped s _ (w, c) (command_ends at_command) = (w, tt)

  settled_unmapped :
      (q : Parent) (c : Child) (written : Writes) (s : k.State)
      → both_settled q c ≡ true
      → ParentFails q written
      → ChildGoesOn c s
      → (q ≡ parent_failed) × ((c ≡ executing) ⊎ (c ≡ command_over)) × (written ≡ log)
  unfolding ParentFails ChildGoesOn
  settled_unmapped mapping c written s h w g = cc
  settled_unmapped parent_failed starting written s h w g = cc
  settled_unmapped parent_failed reading written s h w g = cc
  settled_unmapped parent_failed performing written s h w g = cc
  settled_unmapped parent_failed executing written s h w g = (refl, inl refl, w)
  settled_unmapped parent_failed child_failed written s h w g = absurd g
  settled_unmapped parent_failed command_over written s h w g = (refl, inr refl, w)
  settled_unmapped mapped c written s h w g = absurd w
  settled_unmapped waiting c written s h w g = absurd w
  settled_unmapped wait_failed c written s h w g = absurd w
  settled_unmapped parent_done c written s h w g = absurd w

-- Where update_child_maps fails, the options of the child succeed, read() cannot fail and execvp()
-- works, the child executes the command all the same: there is a run to that state, and in every run
-- from clone() on that has settled, the parent has failed in update_child_maps, the command runs or
-- is over, and the complete writes are those that update_child_maps made before it failed.
pub executes_unmapped :
    (calls : Calls) (p : ParentKernel) (k : CapKernel) (opts : CmdOptions) (process after : k.State)
    (log : Writes)
    → update_child_maps p opts [] ≡ (false, log)
    → perform_repeatable_options k opts.opt_list process ≡ continues after
    → calls.read_can_fail ≡ false
    → calls.execvp_works ≡ true
    → Run
        (Step calls p k opts)
        (cloned k process)
        (record { parent = parent_failed; child = executing; log = log; process = after })
      × ((s : Both k)
          → Run (Step calls p k opts) (cloned k process) s
          → both_settled s.parent s.child ≡ true
          → (s.parent ≡ parent_failed)
            × ((s.child ≡ executing) ⊎ (s.child ≡ command_over))
            × (s.log ≡ log))
unfolding IsUnmapped ParentFails ChildGoesOn
executes_unmapped calls p k opts process after log fails goes_on reads works = (
  then
      (then (then (then start (maps_failed log refl fails)) (closes_own_end refl))
        (end_of_file refl refl))
      (performed after refl goes_on works),
  (λ s run settled.
      let (w, c) =
        Run-keeps (Step calls p k opts)
          (IsUnmapped calls p k opts process after log fails goes_on reads works)
          (Step-IsUnmapped calls p k opts process after log fails goes_on reads works)
          (cloned k process) s (refl, refl) run in
      settled_unmapped calls p k opts process after log fails goes_on reads works s.parent s.child
        s.log s.process settled w c),
)
