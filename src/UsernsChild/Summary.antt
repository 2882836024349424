-- ===== src/UsernsChild/Summary.antt =====
-- The options that userns_child_exec.c accepts, field by field.
use linux_programming_interf.Common.{
  ℕ, ◌≤◌, ◌<◌, ◌≡◌, Bool, true, false, ◌&&◌, ◌||◌, not, none, some, [], ◌∷◌, ◌++◌, ◌==◌, inl, inr,
  Bool-cases, length, arith, if◌then◌else◌,
}
use linux_programming_interf.UsernsChild.{
  Flags, CmdOptions, Getopt, accepted, usage, too_many, set_flag, is_repeatable, repeatable,
  max_opt, parse_option,
}

abbrev pub flags_with : ℕ → Flags → Flags
flags_with c flags = record {
  newcgroup = c == b'C' || flags.newcgroup;
  newipc = c == b'i' || flags.newipc;
  newns = c == b'm' || flags.newns;
  newnet = c == b'n' || flags.newnet;
  newpid = c == b'p' || flags.newpid;
  newuts = c == b'u' || flags.newuts;
  newuser = c == b'U' || flags.newuser;
}

-- What one option does to each field.
abbrev pub with_option : Getopt → CmdOptions → CmdOptions
with_option g opts = record {
  argv = opts.argv;
  flags = flags_with g.opt opts.flags;
  create_root_mappings = (g.opt == b'r' || g.opt == b'z') || opts.create_root_mappings;
  deny_setgroups = not (g.opt == b'D') && opts.deny_setgroups;
  verbose = g.opt == b'v' || opts.verbose;
  uid_map = if g.opt == b'M' then g.optarg else opts.uid_map;
  gid_map = if g.opt == b'G' then g.optarg else opts.gid_map;
  opt_list = if is_repeatable g.opt then opts.opt_list ++ repeatable g ∷ [] else opts.opt_list;
}

abbrev pub is_flag : ℕ → Bool
is_flag c = c == b'C' || c == b'i' || c == b'm' || c == b'n' || c == b'p' || c == b'u' || c == b'U'

abbrev pub is_setting : ℕ → Bool
is_setting c = c == b'M' || c == b'G' || c == b'r' || c == b'z' || c == b'D' || c == b'v'

set_flag-none : (c : ℕ) (flags : Flags) → is_flag c ≡ false → set_flag c flags ≡ none
set_flag-none c flags h = ground (arith, h)

set_flag-some :
    (c : ℕ) (flags : Flags) → is_flag c ≡ true → set_flag c flags ≡ some (flags_with c flags)
set_flag-some c flags h = ground (arith, h)

same_flags : (c : ℕ) (flags : Flags) → is_flag c ≡ false → flags_with c flags ≡ flags
same_flags c flags h = ground (arith, h)

by_flag :
    (g : Getopt) (opts : CmdOptions)
    → is_flag g.opt ≡ true
    → parse_option g opts ≡ accepted (with_option g opts)
unfolding parse_option
by_flag g opts h = ground (arith, h)

by_setting :
    (g : Getopt) (opts : CmdOptions)
    → is_flag g.opt ≡ false
    → is_setting g.opt ≡ true
    → parse_option g opts ≡ accepted (with_option g opts)
unfolding parse_option
by_setting g opts h k = ground (arith, h, k)

by_repeatable :
    (g : Getopt) (opts : CmdOptions)
    → is_flag g.opt ≡ false
    → is_setting g.opt ≡ false
    → is_repeatable g.opt ≡ true
    → length opts.opt_list < max_opt
    → parse_option g opts ≡ accepted (with_option g opts)
unfolding parse_option
by_repeatable g opts h k r few = ground (arith, h, k, r, few)

abbrev pub is_known : ℕ → Bool
is_known c = is_flag c || is_setting c || is_repeatable c

pub parse_option_known :
    (g : Getopt) (opts : CmdOptions)
    → is_known g.opt ≡ true
    → (is_repeatable g.opt ≡ true → length opts.opt_list < max_opt)
    → parse_option g opts ≡ accepted (with_option g opts)
parse_option_known g opts h few = elim (Bool-cases (is_flag g.opt)) [
  | inl flag ↦ by_flag g opts flag
  | inr no_flag ↦ elim (Bool-cases (is_setting g.opt)) [
    | inl setting ↦ by_setting g opts no_flag setting
    | inr no_setting ↦
        let again : is_repeatable g.opt ≡ true = ground (arith, h, no_flag, no_setting) in
        by_repeatable g opts no_flag no_setting again (few again)
  ]
]

pub parse_option_unknown :
    (g : Getopt) (opts : CmdOptions) → is_known g.opt ≡ false → parse_option g opts ≡ usage
unfolding parse_option
parse_option_unknown g opts h = ground (arith, h)

pub parse_option_full :
    (g : Getopt) (opts : CmdOptions)
    → is_repeatable g.opt ≡ true
    → max_opt ≤ length opts.opt_list
    → parse_option g opts ≡ too_many
unfolding parse_option
parse_option_full g opts h full = ground (arith, h, full)
