-- ===== src/UsernsChild/Maps.antt =====
-- update_child_maps of book-src/namespaces/userns_child_exec.c, with update_map and
-- proc_setgroups_write of userns_functions.c. The files of the child are named by what they are, and
-- what the parent has written to them is a list, the last first.
use linux_programming_interf.Common.{
  ℕ, Bool, true, false, Option, none, some, List, [], ◌∷◌, ◌++◌, map, ◌==◌, if◌then◌else◌,
}
use linux_programming_interf.Common.Text.{CString}
use linux_programming_interf.UsernsChild.{CmdOptions}

pub data MapFile : Type 0 where
  uid_map_file : MapFile
  gid_map_file : MapFile
  setgroups_file : MapFile

-- What open() and write() do: the file does not exist, or another error of open(); an error of write(),
-- a part of the text, or all of it.
pub data Answer : Type 0 where
  enoent : Answer
  open_error : Answer
  write_error : Answer
  partly_written : Answer
  all_written : Answer

abbrev pub Writes : Type 0
Writes = List (MapFile × CString)

-- The parent's kernel: its answer to a text for a file, behind what it has written; the user and group
-- of the process; and the decimal text of a number.
pub record ParentKernel : Type 0 where
  pub answer : Writes → MapFile → CString → Answer
  pub getuid : ℕ
  pub getgid : ℕ
  pub decimal : ℕ → CString

abbrev pub to_newline : ℕ → ℕ
to_newline c = if c == b',' then b'\n' else c

-- Only what is written completely is in the list of the writes; `false` is a result of -1.
abbrev pub map_result : Answer → MapFile × CString → Writes → Bool × Writes
map_result enoent w log = (false, log)
map_result open_error w log = (false, log)
map_result write_error w log = (false, log)
map_result partly_written w log = (false, log)
map_result all_written w log = (true, w ∷ log)

unfoldable pub update_map : ParentKernel → Writes → CString → MapFile → Bool × Writes
update_map k log mapping map_file =
    let text = map to_newline mapping in
    map_result (k.answer log map_file text) (map_file, text) log

-- Unlike update_map it takes a part of the text for success.
abbrev pub setgroups_result : Answer → MapFile × CString → Writes → Bool × Writes
setgroups_result enoent w log = (true, log)
setgroups_result open_error w log = (false, log)
setgroups_result write_error w log = (false, log)
setgroups_result partly_written w log = (true, log)
setgroups_result all_written w log = (true, w ∷ log)

unfoldable pub proc_setgroups_write : ParentKernel → Writes → CString → Bool × Writes
proc_setgroups_write k log str =
    setgroups_result (k.answer log setgroups_file str) (setgroups_file, str) log

abbrev pub deny : CString
deny = b'd' ∷ b'e' ∷ b'n' ∷ b'y' ∷ []

-- "0 %ld 1"
abbrev pub root_mapping : ParentKernel → ℕ → CString
root_mapping k id = (b'0' ∷ b' ' ∷ []) ++ k.decimal id ++ (b' ' ∷ b'1' ∷ [])

-- The map that is written: the root mapping with -r, otherwise the option's.
abbrev pub chosen_map : ParentKernel → Bool → ℕ → Option CString → Option CString
chosen_map k create_root id m = if create_root then some (root_mapping k id) else m

abbrev pub if_chosen : Option CString → Writes → (CString → Bool × Writes) → Bool × Writes
if_chosen none log write = (true, log)
if_chosen (some m) log write = write m

-- errExit() of a step ends the parent.
abbrev pub and_then : Bool × Writes → (Writes → Bool × Writes) → Bool × Writes
and_then (false, log) next = (false, log)
and_then (true, log) next = next log

unfoldable pub deny_setgroups_if : ParentKernel → Bool → Writes → Bool × Writes
unfolding proc_setgroups_write
deny_setgroups_if k deny_setgroups log =
    if deny_setgroups then proc_setgroups_write k log deny else (true, log)

-- Whether update_child_maps returns, with all that has been written.
unfoldable pub update_child_maps : ParentKernel → CmdOptions → Writes → Bool × Writes
unfolding update_map deny_setgroups_if
update_child_maps k opts log =
    and_then
      (if_chosen (chosen_map k opts.create_root_mappings k.getuid opts.uid_map) log
        (λ m. update_map k log m uid_map_file))
      (λ log. if_chosen (chosen_map k opts.create_root_mappings k.getgid opts.gid_map) log (λ m.
        and_then (deny_setgroups_if k opts.deny_setgroups log)
          (λ log. update_map k log m gid_map_file)))
