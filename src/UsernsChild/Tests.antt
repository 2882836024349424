-- ===== src/UsernsChild/Tests.antt =====
-- Runs of the definitions on small inputs.
use linux_programming_interf.Common.{ℕ, ◌≡◌, refl, true, ◌↔◌, none, some, List, [], ◌∷◌, arith}
use linux_programming_interf.Common.Text.{CString}
use linux_programming_interf.UsernsChild.{
  CmdOptions, Getopt, accepted, usage, default_options, parse_option, parse_options,
  parse_command_options,
}
use linux_programming_interf.UsernsChild.Allowed.{
  IsAllowed, summary, parse_command_options-IsAllowed,
}
use linux_programming_interf.UsernsChild.Maps.{
  uid_map_file, gid_map_file, open_error, all_written, Writes, ParentKernel, deny, chosen_map,
  update_child_maps, update_map, deny_setgroups_if, proc_setgroups_write, setgroups_file,
}
use linux_programming_interf.UsernsChild.Written.{
  written, FileHolds, GroupHolds, update_child_maps-Holds,
}

abbrev option : ℕ → Getopt
option c = record { opt = c; optarg = none }

abbrev pub option_with : ℕ → CString → Getopt
option_with c val = record { opt = c; optarg = some val }

abbrev id_map : CString
id_map = b'0' ∷ b' ' ∷ b'9' ∷ b' ' ∷ b'1' ∷ []

-- -U -M '0 9 1' -d
abbrev mapped_user : List Getopt
mapped_user = option b'U' ∷ option_with b'M' id_map ∷ option b'd' ∷ []

abbrev pub shell : List CString
shell = (b's' ∷ b'h' ∷ []) ∷ []

parse_command_options-IsAllowed_example :
    (parse_command_options mapped_user shell ≡ accepted (summary mapped_user shell))
    ↔ (IsAllowed mapped_user shell × (summary mapped_user shell ≡ summary mapped_user shell))
parse_command_options-IsAllowed_example =
    parse_command_options-IsAllowed mapped_user shell (summary mapped_user shell)

-- -S 1,2,3 is refused.
uids_refused :
    parse_command_options (option_with b'S' (b'1' ∷ b',' ∷ b'2' ∷ b',' ∷ b'3' ∷ []) ∷ []) shell
    ≡ usage
unfolding parse_command_options parse_options parse_option
uids_refused = refl

abbrev writable : ParentKernel
writable = record {
  answer = λ log f text. all_written;
  getuid = 1000;
  getgid = 100;
  decimal = λ n. b'9' ∷ [];
}

abbrev pub closed_files : ParentKernel
closed_files = record {
  answer = λ log f text. open_error;
  getuid = 1000;
  getgid = 100;
  decimal = λ n. b'9' ∷ [];
}

abbrev pub root_options : CmdOptions
root_options = record default_options { create_root_mappings = true }

abbrev root_writes : Writes
root_writes = (gid_map_file, id_map) ∷ (setgroups_file, deny) ∷ (uid_map_file, id_map) ∷ []

root_maps : update_child_maps writable root_options [] ≡ (true, root_writes)
unfolding update_child_maps update_map deny_setgroups_if proc_setgroups_write
root_maps = refl

update_child_maps-Holds_example :
    FileHolds (chosen_map writable true 1000 none) (written uid_map_file root_writes)
    × GroupHolds writable true (chosen_map writable true 100 none) root_writes
update_child_maps-Holds_example =
    update_child_maps-Holds writable root_options root_writes
      (λ n. ((λ e. let no : ⊥ = omega (arith, e) in no), tt))
      (λ t e. absurd (let no : ⊥ = cc in no)) (λ t e. absurd (let no : ⊥ = cc in no)) root_maps
