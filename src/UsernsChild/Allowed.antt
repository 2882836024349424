-- ===== src/UsernsChild/Allowed.antt =====
-- The command lines that parse_command_options accepts.
use linux_programming_interf.Common.{
  ◌≤◌, ◌≡◌, ◌≢◌, refl, sym, ap, ◌∙◌, Bool, true, false, ◌&&◌, ◌||◌, not, ◌↔◌, none, List, [], ◌∷◌,
  inl, inr, Bool-cases, length, arith,
}
use linux_programming_interf.Common.Text.{CString}
use linux_programming_interf.UsernsChild.{
  CmdOptions, Getopt, Parsed, accepted, usage, too_many, is_some, max_opt, default_options,
  is_nonsensical, finish_options, then_options, parse_options, parse_command_options,
}
use linux_programming_interf.UsernsChild.Loop.{
  given, last_value, repeatables, root_given, summary_of, AllKnown, parse_options-summary,
  accepted-AllKnown, accepted_few,
}

-- What parse_command_options reads, for the command `rest`.
abbrev pub summary : List Getopt → List CString → CmdOptions
summary gs rest = record (summary_of gs default_options) { argv = rest }

abbrev pub mapped : List Getopt → Bool
mapped gs = is_some (last_value b'M' gs none) || is_some (last_value b'G' gs none)

-- There is a command, all options are known and at most 100 of them repeatable; -M, -G and -r want -U,
-- and -r goes with neither of the others.
abbrev pub IsAllowed : List Getopt → List CString → Type 0
IsAllowed gs rest =
    AllKnown gs
    × (length (repeatables gs) ≤ max_opt)
    × (rest ≢ [])
    × (mapped gs || root_given gs ≡ true → given b'U' gs ≡ true)
    × (root_given gs ≡ true → mapped gs ≡ false)

or_false : (b : Bool) → b || false ≡ b
or_false true = refl
or_false false = refl

sensible :
    (u g r n : Bool)
    → ((u || g) || r ≡ true → n ≡ true)
    → (r ≡ true → u || g ≡ false)
    → ((u || g || r) && not n) || (r && (u || g)) ≡ false
sensible u g r n h k = ground (arith, h, k)

sensible_back :
    (u g r n : Bool)
    → ((u || g || r) && not n) || (r && (u || g)) ≡ false
    → ((u || g) || r ≡ true → n ≡ true) × (r ≡ true → u || g ≡ false)
sensible_back u g r n h = ((λ a. ground (arith, h, a)), (λ a. ground (arith, h, a)))

summary_sensible :
    (gs : List Getopt)
    → is_nonsensical (summary_of gs default_options)
      ≡ ((is_some (last_value b'M' gs none) || is_some (last_value b'G' gs none) || root_given gs)
          && not (given b'U' gs))
        || (root_given gs && mapped gs)
summary_sensible gs = rw (or_false (root_given gs), or_false (given b'U' gs)) refl

finish_accepted :
    (rest : List CString) (o opts : CmdOptions)
    → finish_options rest o ≡ accepted opts
    → (rest ≢ []) × (is_nonsensical o ≡ false) × (opts ≡ record o { argv = rest })
finish_accepted [] o opts e = cc
finish_accepted (cmd ∷ args) o opts e = elim (Bool-cases (is_nonsensical o)) [
  | inl bad ↦ let stops : usage ≡ accepted opts = rw bad at e in absurd (let no : ⊥ = cc in no)
  | inr good ↦ ((λ h. cc), good, accepted_injective (sym (rw good at e)))
]
  where
    accepted_injective : {a b : CmdOptions} → accepted a ≡ accepted b → a ≡ b
    accepted_injective h = cc

finish_good :
    (rest : List CString) (o : CmdOptions)
    → rest ≢ []
    → is_nonsensical o ≡ false
    → finish_options rest o ≡ accepted (record o { argv = rest })
finish_good [] o h good = absurd (h refl)
finish_good (cmd ∷ args) o h good = rw good refl

options_allowed :
    (gs : List Getopt) (rest : List CString)
    → IsAllowed gs rest
    → parse_command_options gs rest ≡ accepted (summary gs rest)
unfolding parse_command_options
options_allowed gs rest (known, few, some_command, wants, apart) =
    rw (parse_options-summary gs default_options known (omega (arith, few))) (
      finish_good rest (summary_of gs default_options) some_command (
        summary_sensible gs
        ∙ sensible (is_some (last_value b'M' gs none)) (is_some (last_value b'G' gs none))
            (root_given gs) (given b'U' gs) wants apart))

accepted-IsAllowed :
    (gs : List Getopt) (rest : List CString) (o opts : CmdOptions)
    → parse_options gs default_options ≡ accepted o
    → finish_options rest o ≡ accepted opts
    → IsAllowed gs rest × (opts ≡ summary gs rest)
accepted-IsAllowed gs rest o opts e f =
    let known = accepted-AllKnown gs default_options o e in
    let few = accepted_few gs default_options o (omega arith) e in
    let read : accepted o ≡ accepted (summary_of gs default_options) =
      sym e ∙ parse_options-summary gs default_options known few in
    let same : o ≡ summary_of gs default_options = cc in
    let (some_command, good, result) = finish_accepted rest o opts f in
    let bits =
      sensible_back (is_some (last_value b'M' gs none)) (is_some (last_value b'G' gs none))
        (root_given gs) (given b'U' gs) (sym (summary_sensible gs) ∙ (rw same at good)) in
    ((known, omega (arith, few), some_command, bits.0, bits.1), rw same at result)

-- The command line is accepted exactly if it is allowed: there is a command behind the options, each
-- option is known, at most 100 are repeatable, -M, -G or -r comes with -U, and -r without -M and -G.
-- What is read from it are the namespaces, the last argument of -M and of -G, whether -r or -z, -D and
-- -v are given, and the repeatable options in their order.
pub parse_command_options-IsAllowed :
    (gs : List Getopt) (rest : List CString) (opts : CmdOptions)
    → (parse_command_options gs rest ≡ accepted opts)
      ↔ (IsAllowed gs rest × (opts ≡ summary gs rest))
unfolding parse_command_options
parse_command_options-IsAllowed gs rest opts = (
  (λ e. first gs rest opts (parse_options gs default_options) refl e),
  (λ h. options_allowed gs rest (h.0) ∙ ap accepted (sym (h.1))),
)
  where
    first :
        (gs : List Getopt) (rest : List CString) (opts : CmdOptions) (p : Parsed)
        → parse_options gs default_options ≡ p
        → then_options p (finish_options rest) ≡ accepted opts
        → IsAllowed gs rest × (opts ≡ summary gs rest)
    first gs rest opts (accepted o) e f = accepted-IsAllowed gs rest o opts e f
    first gs rest opts usage e f = cc
    first gs rest opts too_many e f = cc
