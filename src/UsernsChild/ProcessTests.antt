-- ===== src/UsernsChild/ProcessTests.antt =====
-- Runs on a process whose calls succeed.
use linux_programming_interf.Common.{
  ◌<◌, ◌≡◌, ◌≢◌, refl, true, false, some, List, [], ◌∷◌, ◌⊎◌, inr,
}
use linux_programming_interf.Common.Text.{CString}
use linux_programming_interf.Common.Steps.{Run}
use linux_programming_interf.UsernsChild.{
  Getopt, accepted, parse_option, parse_options, parse_command_options,
}
use linux_programming_interf.UsernsChild.Allowed.{summary}
use linux_programming_interf.UsernsChild.Maps.{update_child_maps, update_map}
use linux_programming_interf.UsernsChild.Capabilities.{
  cap_permitted, cap_inheritable, modify_individual_capability, until_op, modify_letters,
  modify_letter, modify_cap_setting,
}
use linux_programming_interf.UsernsChild.Modified.{
  IsModified, modify_individual_capability-IsModified,
}
use linux_programming_interf.UsernsChild.Repeatable.{
  continues, perform_from, perform_repeatable_options,
}
use linux_programming_interf.UsernsChild.Securebits.{perform_repeatable_options-stops}
use linux_programming_interf.UsernsChild.Sync.{
  parent_failed, executing, command_over, Calls, Both, Step, cloned,
}
use linux_programming_interf.UsernsChild.Order.{MapsDecided, reached-MapsDecided}
use linux_programming_interf.UsernsChild.Unmapped.{executes_unmapped}
use linux_programming_interf.UsernsChild.Tests.{option_with, shell, closed_files, root_options}
use linux_programming_interf.UsernsChild.Ends.{both_settled, CanGoOn, steps_left, both_ends}
use linux_programming_interf.UsernsChild.SampleProcess.{Proc, set_in, pushed, raise, process}

-- Nothing is held at first, all is in the bounding set.
abbrev fresh_process : Proc
fresh_process = record { sets = λ f n. false; bound = λ n. true; raised = λ n. false }

-- "pia+chown"
abbrev raising : CString
raising = b'p' ∷ b'i' ∷ b'a' ∷ b'+' ∷ b'c' ∷ []

abbrev permitted_then : Proc
permitted_then = pushed fresh_process (set_in (λ f n. false) cap_permitted 21 true)

abbrev inheritable_then : Proc
inheritable_then =
    pushed permitted_then
      (set_in (set_in (λ f n. false) cap_permitted 21 true) cap_inheritable 21 true)

raising_run :
    modify_individual_capability process raising fresh_process ≡ some (raise inheritable_then 21)
unfolding modify_individual_capability until_op modify_letters modify_letter modify_cap_setting
raising_run = refl

modify_individual_capability-IsModified_example :
    IsModified process raising fresh_process (raise inheritable_then 21)
modify_individual_capability-IsModified_example =
    modify_individual_capability-IsModified process raising fresh_process
      (raise inheritable_then 21) raising_run

-- -b r
abbrev with_securebits : List Getopt
with_securebits = option_with b'b' (b'r' ∷ []) ∷ []

with_securebits_accepted :
    parse_command_options with_securebits shell ≡ accepted (summary with_securebits shell)
unfolding parse_command_options parse_options parse_option
with_securebits_accepted = refl

perform_repeatable_options-stops_example :
    perform_repeatable_options process ((summary with_securebits shell).opt_list) fresh_process
    ≢ continues fresh_process
perform_repeatable_options-stops_example =
    perform_repeatable_options-stops process with_securebits shell (summary with_securebits shell)
      fresh_process fresh_process with_securebits_accepted refl

files_closed : update_child_maps closed_files root_options [] ≡ (false, [])
unfolding update_child_maps update_map
files_closed = refl

performs_none : perform_repeatable_options process [] fresh_process ≡ continues fresh_process
unfolding perform_repeatable_options perform_from
performs_none = refl

-- The child executes the command, and the maps are not written.
abbrev unmapped : Both process
unmapped = record { parent = parent_failed; child = executing; log = []; process = fresh_process }

-- No call fails.
abbrev calls : Calls
calls = record { read_can_fail = false; execvp_works = true; waitpid_can_fail = false }

executes_unmapped_example :
    Run (Step calls closed_files process root_options) (cloned process fresh_process) unmapped
    × ((s : Both process)
        → Run (Step calls closed_files process root_options) (cloned process fresh_process) s
        → both_settled s.parent s.child ≡ true
        → (s.parent ≡ parent_failed)
          × ((s.child ≡ executing) ⊎ (s.child ≡ command_over))
          × (s.log ≡ []))
executes_unmapped_example =
    executes_unmapped calls closed_files process root_options fresh_process fresh_process []
      files_closed performs_none refl refl

reached-MapsDecided_example : MapsDecided calls closed_files process root_options unmapped
reached-MapsDecided_example =
    reached-MapsDecided calls closed_files process root_options fresh_process unmapped
      (executes_unmapped calls closed_files process root_options fresh_process fresh_process []
        files_closed performs_none refl refl).0
      (inr refl)

both_ends_example :
    ((both_settled parent_failed executing ≡ true)
      ⊎ CanGoOn calls closed_files process root_options unmapped)
    × ((t : Both process)
        → Step calls closed_files process root_options unmapped t
        → steps_left t < steps_left unmapped)
    × (steps_left unmapped < 8)
both_ends_example = both_ends calls closed_files process root_options unmapped
