-- ===== src/UsernsChild/Order.antt =====
-- The order of the maps and the command, by the steps of the two processes.
use linux_programming_interf.Common.{◌≡◌, refl, true, false, [], ◌⊎◌, inl, inr}
use linux_programming_interf.Common.Steps.{Run, Run-keeps}
use linux_programming_interf.UsernsChild.{CmdOptions}
use linux_programming_interf.UsernsChild.Maps.{Writes, ParentKernel, update_child_maps}
use linux_programming_interf.UsernsChild.Capabilities.{CapKernel}
use linux_programming_interf.UsernsChild.Sync.{
  Parent, mapping, mapped, waiting, parent_failed, wait_failed, parent_done, Child, starting,
  reading, performing, executing, child_failed, command_over, Calls, parent_has_end, Both, Step,
  maps_updated, maps_failed, closes_end, waited, wait_fails, closes_own_end, end_of_file,
  read_fails, performed, execvp_fails, option_exits, option_faults, command_ends, cloned,
}

module _ (calls : Calls) (p : ParentKernel) (k : CapKernel) (opts : CmdOptions) where
  -- What has been written, by where the parent is.
  abbrev pub WrittenBy : Parent → Writes → Type 0
  WrittenBy mapping log = log ≡ []
  WrittenBy parent_failed log = update_child_maps p opts [] ≡ (false, log)
  WrittenBy _ log = update_child_maps p opts [] ≡ (true, log)

  -- Behind the end of file the parent has left update_child_maps.
  abbrev pub IsBehind : Child → Parent → Type 0
  IsBehind performing q = parent_has_end q ≡ false
  IsBehind executing q = parent_has_end q ≡ false
  IsBehind _ q = Unit

  abbrev IsOrdered : Both k → Type 0
  IsOrdered s = WrittenBy s.parent s.log × IsBehind s.child s.parent

  not_yet : (c : Child) (q r : Parent) → parent_has_end q ≡ true → IsBehind c q → IsBehind c r
  not_yet starting q r e h = tt
  not_yet reading q r e h = tt
  not_yet performing q r e h = let no : ⊥ = cc in absurd no
  not_yet executing q r e h = let no : ⊥ = cc in absurd no
  not_yet child_failed q r e h = tt
  not_yet command_over q r e h = tt

  still-IsBehind :
      (c : Child) (q r : Parent) → parent_has_end r ≡ false → IsBehind c q → IsBehind c r
  still-IsBehind starting q r e h = tt
  still-IsBehind reading q r e h = tt
  still-IsBehind performing q r e h = e
  still-IsBehind executing q r e h = e
  still-IsBehind child_failed q r e h = tt
  still-IsBehind command_over q r e h = tt

  left_behind : (c : Child) (q : Parent) → c ≡ performing → IsBehind c q → parent_has_end q ≡ false
  left_behind c q e h = rw e at h

  Step-IsOrdered : (s t : Both k) → IsOrdered s → Step calls p k opts s t → IsOrdered t
  Step-IsOrdered s _ (w, b) (maps_updated log at_maps e) =
      let nothing : s.log ≡ [] = rw at_maps at w in
      (rw nothing at e, not_yet s.child mapping mapped refl (rw at_maps at b))
  Step-IsOrdered s _ (w, b) (maps_failed log at_maps e) =
      let nothing : s.log ≡ [] = rw at_maps at w in
      (rw nothing at e, not_yet s.child mapping parent_failed refl (rw at_maps at b))
  Step-IsOrdered s _ (w, b) (closes_end at_mapped) =
      (rw at_mapped at w, not_yet s.child mapped waiting refl (rw at_mapped at b))
  Step-IsOrdered s _ (w, b) (waited at_wait over) =
      (rw at_wait at w, still-IsBehind s.child waiting parent_done refl (rw at_wait at b))
  Step-IsOrdered s _ (w, b) (wait_fails at_wait e) =
      (rw at_wait at w, still-IsBehind s.child waiting wait_failed refl (rw at_wait at b))
  Step-IsOrdered s _ (w, b) (closes_own_end at) = (w, tt)
  Step-IsOrdered s _ (w, b) (end_of_file at no_end) = (w, no_end)
  Step-IsOrdered s _ (w, b) (read_fails at e) = (w, tt)
  Step-IsOrdered s _ (w, b) (performed process at_options e works) =
      (w, left_behind s.child s.parent at_options b)
  Step-IsOrdered s _ (w, b) (execvp_fails process at_options e fails) = (w, tt)
  Step-IsOrdered s _ (w, b) (option_exits at_options e) = (w, tt)
  Step-IsOrdered s _ (w, b) (option_faults at_options e) = (w, tt)
  Step-IsOrdered s _ (w, b) (command_ends at_command) = (w, tt)

  -- The maps are complete, or the parent has failed over them.
  abbrev pub MapsDecided : Both k → Type 0
  MapsDecided s =
      (update_child_maps p opts [] ≡ (true, s.log))
      ⊎ (s.parent ≡ parent_failed) × (update_child_maps p opts [] ≡ (false, s.log))

  decided :
      (q : Parent) (log : Writes)
      → parent_has_end q ≡ false
      → WrittenBy q log
      → (update_child_maps p opts [] ≡ (true, log))
        ⊎ (q ≡ parent_failed) × (update_child_maps p opts [] ≡ (false, log))
  decided mapping log e w = let no : ⊥ = cc in absurd no
  decided mapped log e w = inl w
  decided waiting log e w = inl w
  decided parent_failed log e w = inr (refl, w)
  decided wait_failed log e w = inl w
  decided parent_done log e w = inl w

  behind :
      (c : Child) (q : Parent)
      → (c ≡ performing) ⊎ (c ≡ executing)
      → IsBehind c q
      → parent_has_end q ≡ false
  behind c q (inl e) h = rw e at h
  behind c q (inr e) h = rw e at h

-- In every run of the two processes from clone() on, where the child is in its repeatable options or
-- behind execvp(), update_child_maps has returned with the maps written, or the parent has exited by
-- errExit() in it.
pub reached-MapsDecided :
    (calls : Calls) (p : ParentKernel) (k : CapKernel) (opts : CmdOptions) (process : k.State)
    (s : Both k)
    → Run (Step calls p k opts) (cloned k process) s
    → (s.child ≡ performing) ⊎ (s.child ≡ executing)
    → MapsDecided calls p k opts s
reached-MapsDecided calls p k opts process s run at_child =
    let (w, b) =
      Run-keeps (Step calls p k opts) (IsOrdered calls p k opts) (Step-IsOrdered calls p k opts)
        (cloned k process) s (refl, tt) run in
    decided calls p k opts s.parent s.log (behind calls p k opts s.child s.parent at_child b) w
