-- ===== src/UsernsChild/Loop.antt =====
-- The loop of parse_command_options over the options, and what it reads field by field.
use mathlib.Core.List.{append-nil}
use linux_programming_interf.Common.{
  ℕ, ◌+◌, ◌≤◌, ◌<◌, ◌≡◌, refl, sym, ap, ◌∙◌, Bool, true, false, ◌&&◌, ◌||◌, not, Option, List, [],
  ◌∷◌, ◌++◌, ltb, ◌==◌, inl, inr, Bool-cases, length, length-append, regroup, arith, if◌then◌else◌,
}
use linux_programming_interf.Common.Text.{CString}
use linux_programming_interf.UsernsChild.{
  RepeatableOption, CmdOptions, Getopt, accepted, usage, too_many, is_repeatable, repeatable,
  max_opt, parse_option, then_options, parse_options,
}
use linux_programming_interf.UsernsChild.Summary.{
  with_option, is_known, parse_option_known, parse_option_unknown, parse_option_full,
}

abbrev pub given : ℕ → List Getopt → Bool
given c [] = false
given c (g ∷ gs) = g.opt == c || given c gs

-- The argument of the last option of that letter.
abbrev pub last_value : ℕ → List Getopt → Option CString → Option CString
last_value c [] v = v
last_value c (g ∷ gs) v = last_value c gs (if g.opt == c then g.optarg else v)

abbrev pub repeatables : List Getopt → List RepeatableOption
repeatables [] = []
repeatables (g ∷ gs) =
    let rest = repeatables gs in if is_repeatable g.opt then repeatable g ∷ rest else rest

abbrev pub root_given : List Getopt → Bool
root_given gs = given b'r' gs || given b'z' gs

abbrev pub summary_of : List Getopt → CmdOptions → CmdOptions
summary_of gs opts = record {
  argv = opts.argv;
  flags = record {
    newcgroup = given b'C' gs || opts.flags.newcgroup;
    newipc = given b'i' gs || opts.flags.newipc;
    newns = given b'm' gs || opts.flags.newns;
    newnet = given b'n' gs || opts.flags.newnet;
    newpid = given b'p' gs || opts.flags.newpid;
    newuts = given b'u' gs || opts.flags.newuts;
    newuser = given b'U' gs || opts.flags.newuser;
  };
  create_root_mappings = root_given gs || opts.create_root_mappings;
  deny_setgroups = not (given b'D' gs) && opts.deny_setgroups;
  verbose = given b'v' gs || opts.verbose;
  uid_map = last_value b'M' gs opts.uid_map;
  gid_map = last_value b'G' gs opts.gid_map;
  opt_list = opts.opt_list ++ repeatables gs;
}

or_swap : (a b o : Bool) → (a || b) || o ≡ b || (a || o)
or_swap true true o = refl
or_swap true false o = refl
or_swap false b o = refl

root_swap : (r z a b o : Bool) → ((r || a) || (z || b)) || o ≡ (a || b) || ((r || z) || o)
root_swap true true true b o = refl
root_swap true true false true o = refl
root_swap true true false false o = refl
root_swap true false true b o = refl
root_swap true false false true o = refl
root_swap true false false false o = refl
root_swap false true true b o = refl
root_swap false true false true o = refl
root_swap false true false false o = refl
root_swap false false a b o = refl

deny_swap : (a b o : Bool) → not (a || b) && o ≡ not b && (not a && o)
deny_swap true true o = refl
deny_swap true false o = refl
deny_swap false b o = refl

listed :
    (g : Getopt) (gs : List Getopt) (xs : List RepeatableOption)
    → xs ++ repeatables (g ∷ gs)
      ≡ (if is_repeatable g.opt then xs ++ repeatable g ∷ [] else xs) ++ repeatables gs
listed g gs xs = elim (Bool-cases (is_repeatable g.opt)) [
  | inl again ↦ rw again (regroup xs (repeatable g) (repeatables gs))
  | inr other ↦ rw other refl
]

summary_of_next :
    (g : Getopt) (gs : List Getopt) (opts : CmdOptions)
    → summary_of (g ∷ gs) opts ≡ summary_of gs (with_option g opts)
summary_of_next g gs opts =
    rw
      (
        or_swap (g.opt == b'C') (given b'C' gs) opts.flags.newcgroup,
        or_swap (g.opt == b'i') (given b'i' gs) opts.flags.newipc,
        or_swap (g.opt == b'm') (given b'm' gs) opts.flags.newns,
        or_swap (g.opt == b'n') (given b'n' gs) opts.flags.newnet,
        or_swap (g.opt == b'p') (given b'p' gs) opts.flags.newpid,
        or_swap (g.opt == b'u') (given b'u' gs) opts.flags.newuts,
        or_swap (g.opt == b'U') (given b'U' gs) opts.flags.newuser,
        root_swap (g.opt == b'r') (g.opt == b'z') (given b'r' gs) (given b'z' gs)
            opts.create_root_mappings,
        deny_swap (g.opt == b'D') (given b'D' gs) opts.deny_setgroups,
        or_swap (g.opt == b'v') (given b'v' gs) opts.verbose,
        listed g gs opts.opt_list,
      )
      refl

abbrev pub AllKnown : List Getopt → Type 0
AllKnown [] = Unit
AllKnown (g ∷ gs) = (is_known g.opt ≡ true) × AllKnown gs

length-kept :
    (g : Getopt) (gs : List Getopt) (opts : CmdOptions)
    → length ((with_option g opts).opt_list) + length (repeatables gs)
      ≡ length opts.opt_list + length (repeatables (g ∷ gs))
length-kept g gs opts = elim (Bool-cases (is_repeatable g.opt)) [
  | inl again ↦ rw again (omega (arith, length-append opts.opt_list (repeatable g ∷ [])))
  | inr other ↦ rw other refl
]

has_room :
    (g : Getopt) (gs : List Getopt) (opts : CmdOptions)
    → length opts.opt_list + length (repeatables (g ∷ gs)) ≤ max_opt
    → is_repeatable g.opt ≡ true
    → length opts.opt_list < max_opt
has_room g gs opts few again =
    let counted = length-kept g gs opts in
    let more = length-append opts.opt_list (repeatable g ∷ []) in ground (arith, few, again)

pub parse_options-summary :
    (gs : List Getopt) (opts : CmdOptions)
    → AllKnown gs
    → length opts.opt_list + length (repeatables gs) ≤ max_opt
    → parse_options gs opts ≡ accepted (summary_of gs opts)
unfolding parse_options
parse_options-summary [] opts known few = rw (append-nil opts.opt_list) refl
parse_options-summary (g ∷ gs) opts (known, all) few =
    rw (parse_option_known g opts known (has_room g gs opts few)) (
      parse_options-summary gs (with_option g opts) all (omega (arith, few, length-kept g gs opts))
      ∙ ap accepted (sym (summary_of_next g gs opts)))

-- The other way: what is accepted is known, and there was room for it.
next_accepted :
    (g : Getopt) (gs : List Getopt) (opts o : CmdOptions)
    → then_options (parse_option g opts) (parse_options gs) ≡ accepted o
    → (is_known g.opt ≡ true) × (parse_options gs (with_option g opts) ≡ accepted o)
next_accepted g gs opts o e = elim (Bool-cases (is_known g.opt)) [
  | inl known ↦ elim (Bool-cases (is_repeatable g.opt)) [
    | inl again ↦ elim (Bool-cases (ltb (length opts.opt_list) max_opt)) [
      | inl room ↦ (known, rw (parse_option_known g opts known (λ r. ground (arith, room))) at e)
      | inr full ↦
          let stops : too_many ≡ accepted o =
            rw (parse_option_full g opts again (ground (arith, full))) at e in
          absurd (let no : ⊥ = cc in no)
    ]
    | inr other ↦
        (known, rw (parse_option_known g opts known (λ r. let no : ⊥ = cc in absurd no)) at e)
  ]
  | inr unknown ↦
      let stops : usage ≡ accepted o = rw (parse_option_unknown g opts unknown) at e in
      absurd (let no : ⊥ = cc in no)
]

pub accepted-AllKnown :
    (gs : List Getopt) (opts o : CmdOptions) → parse_options gs opts ≡ accepted o → AllKnown gs
unfolding parse_options
accepted-AllKnown [] opts o e = tt
accepted-AllKnown (g ∷ gs) opts o e =
    let (known, rest) = next_accepted g gs opts o e in
    (known, accepted-AllKnown gs (with_option g opts) o rest)

pub accepted_few :
    (gs : List Getopt) (opts o : CmdOptions)
    → length opts.opt_list ≤ max_opt
    → parse_options gs opts ≡ accepted o
    → length opts.opt_list + length (repeatables gs) ≤ max_opt
unfolding parse_options
accepted_few [] opts o few e = omega (arith, few)
accepted_few (g ∷ gs) opts o few e =
    let (known, rest) = next_accepted g gs opts o e in
    let counted = length-kept g gs opts in
    omega (arith, counted, accepted_few gs (with_option g opts) o (still g opts o gs few e) rest)
  where
    still :
        (g : Getopt) (opts o : CmdOptions) (gs : List Getopt)
        → length opts.opt_list ≤ max_opt
        → then_options (parse_option g opts) (parse_options gs) ≡ accepted o
        → length ((with_option g opts).opt_list) ≤ max_opt
    still g opts o gs few e = elim (Bool-cases (is_repeatable g.opt)) [
      | inl again ↦ elim (Bool-cases (ltb (length opts.opt_list) max_opt)) [
        | inl room ↦
            rw again (ground (arith, room, length-append opts.opt_list (repeatable g ∷ [])))
        | inr full ↦
            let stops : too_many ≡ accepted o =
              rw (parse_option_full g opts again (ground (arith, full))) at e in
            absurd (let no : ⊥ = cc in no)
      ]
      | inr other ↦ rw other few
    ]
