-- ===== src/UsernsChild.antt =====
-- book-src/namespaces/userns_child_exec.c, with update_map and proc_setgroups_write of
-- userns_functions.c and modifyCapSetting of book-src/cap/cap_functions.c: a command is executed in
-- new namespaces. Here: the options of the command line. getopt() is a parameter, as the list of what
-- it returns.
mod Summary
mod Loop
mod Allowed
pub mod Maps
mod Written
pub mod Capabilities
mod Settings
mod Letters
mod Modified
pub mod Repeatable
mod Securebits
pub mod Sync
mod Order
mod Ends
mod Unmapped
mod Tests
mod SampleProcess
mod ProcessTests
use linux_programming_interf.Common.{
  ℕ, suc, ◌+◌, ◌≡◌, Bool, true, false, ◌&&◌, ◌||◌, not, Option, none, some, List, [], ◌∷◌, ◌++◌,
  ltb, leb, ◌==◌, if◌then◌else◌, length,
}
use linux_programming_interf.Common.Text.{CString}

-- `struct option_list`; `val` is NULL where it is not set.
pub record RepeatableOption : Type 0 where
  pub opt : ℕ
  pub val : Option CString

abbrev pub max_opt : ℕ
max_opt = 100

-- The bits of `flags`, one for each CLONE_NEW flag.
pub record Flags : Type 0 where
  pub newcgroup : Bool
  pub newipc : Bool
  pub newns : Bool
  pub newnet : Bool
  pub newpid : Bool
  pub newuts : Bool
  pub newuser : Bool

-- `struct cmd_options`; `opt_list` are its first `opt_cnt` elements.
pub record CmdOptions : Type 0 where
  pub argv : List CString
  pub flags : Flags
  pub create_root_mappings : Bool
  pub deny_setgroups : Bool
  pub verbose : Bool
  pub uid_map : Option CString
  pub gid_map : Option CString
  pub opt_list : List RepeatableOption

abbrev pub no_flags : Flags
no_flags = record {
  newcgroup = false;
  newipc = false;
  newns = false;
  newnet = false;
  newpid = false;
  newuts = false;
  newuser = false;
}

abbrev pub default_options : CmdOptions
default_options = record {
  argv = [];
  flags = no_flags;
  create_root_mappings = false;
  deny_setgroups = true;
  verbose = false;
  uid_map = none;
  gid_map = none;
  opt_list = [];
}

-- What getopt() returns: an option or '?', and `optarg`.
pub record Getopt : Type 0 where
  pub opt : ℕ
  pub optarg : Option CString

-- `usage` prints the options and exits, too many repeatable options end the program.
pub data Parsed : Type 0 where
  accepted : CmdOptions → Parsed
  usage : Parsed
  too_many : Parsed

abbrev pub is_some : {A : Type 0} → Option A → Bool
is_some none = false
is_some (some a) = true

-- `switch (opt)`, for the options that set a flag.
abbrev pub set_flag : ℕ → Flags → Option Flags
set_flag opt flags =
    if opt == b'C'
    then some (record flags { newcgroup = true })
    else if opt == b'i'
    then some (record flags { newipc = true })
    else if opt == b'm'
    then some (record flags { newns = true })
    else if opt == b'n'
    then some (record flags { newnet = true })
    else if opt == b'p'
    then some (record flags { newpid = true })
    else if opt == b'u'
    then some (record flags { newuts = true })
    else if opt == b'U'
    then some (record flags { newuser = true })
    else none

-- The other options that are not repeatable.
abbrev pub set_option : Getopt → CmdOptions → Option CmdOptions
set_option g opts =
    if g.opt == b'M'
    then some (record opts { uid_map = g.optarg })
    else if g.opt == b'G'
    then some (record opts { gid_map = g.optarg })
    else if g.opt == b'r' || g.opt == b'z'
    then some (record opts { create_root_mappings = true })
    else if g.opt == b'D'
    then some (record opts { deny_setgroups = false })
    else if g.opt == b'v'
    then some (record opts { verbose = true })
    else none

abbrev pub is_repeatable : ℕ → Bool
is_repeatable opt =
    opt == b'h'
    || opt == b'a'
    || opt == b'b'
    || opt == b's'
    || opt == b'd'
    || opt == b'x'
    || opt == b'X'
    || opt == b'w'

-- Only some options keep `optarg`.
abbrev pub repeatable : Getopt → RepeatableOption
repeatable g = record {
  opt = g.opt;
  val =
      if g.opt == b's' || g.opt == b'S' || g.opt == b'x' || g.opt == b'X' || g.opt == b'w'
      then g.optarg
      else none;
}

-- One round of the loop.
unfoldable pub parse_option : Getopt → CmdOptions → Parsed
parse_option g opts = elim (set_flag g.opt opts.flags) [
  | some flags ↦ accepted (record opts { flags = flags })
  | none ↦ elim (set_option g opts) [
    | some opts' ↦ accepted opts'
    | none ↦
        if is_repeatable g.opt
        then (if leb max_opt (length opts.opt_list)
            then too_many
            else accepted (record opts { opt_list = opts.opt_list ++ repeatable g ∷ [] }))
        else usage
  ]
]

-- -M, -G, or -r without -U, or -r with -M or -G.
abbrev pub is_nonsensical : CmdOptions → Bool
is_nonsensical opts =
    ((is_some opts.uid_map || is_some opts.gid_map || opts.create_root_mappings)
      && not opts.flags.newuser)
    || (opts.create_root_mappings && (is_some opts.uid_map || is_some opts.gid_map))

-- Behind the loop, with the arguments from `optind` on.
abbrev pub finish_options : List CString → CmdOptions → Parsed
finish_options [] opts = usage
finish_options (cmd ∷ args) opts =
    if is_nonsensical opts then usage else accepted (record opts { argv = cmd ∷ args })

abbrev pub then_options : Parsed → (CmdOptions → Parsed) → Parsed
then_options (accepted opts) next = next opts
then_options usage next = usage
then_options too_many next = too_many

unfoldable pub parse_options : List Getopt → CmdOptions → Parsed
unfolding parse_option
parse_options [] opts = accepted opts
parse_options (g ∷ gs) opts = then_options (parse_option g opts) (parse_options gs)

unfoldable pub parse_command_options : List Getopt → List CString → Parsed
unfolding parse_options
parse_command_options gs rest =
    then_options (parse_options gs default_options) (finish_options rest)
