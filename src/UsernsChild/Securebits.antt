-- ===== src/UsernsChild/Securebits.antt =====
-- The option -b, whose argument parse_command_options does not keep.
use linux_programming_interf.Common.{
  ℕ, ◌≡◌, ◌≢◌, ap, true, List, [], ◌∷◌, ◌==◌, inl, inr, Bool-cases, arith,
}
use linux_programming_interf.Common.Text.{CString}
use linux_programming_interf.UsernsChild.{
  CmdOptions, Getopt, accepted, is_repeatable, repeatable, parse_command_options,
}
use linux_programming_interf.UsernsChild.Loop.{given, repeatables}
use linux_programming_interf.UsernsChild.Allowed.{parse_command_options-IsAllowed}
use linux_programming_interf.UsernsChild.Capabilities.{CapKernel}
use linux_programming_interf.UsernsChild.Repeatable.{
  Performed, continues, exits, faults, and_continue, counted, perform_option, perform_from,
  perform_repeatable_options,
}

module _ (k : CapKernel) where
  securebits_faults :
      (g : Getopt) (display_cnt : ℕ) (s : k.State)
      → (g.opt == b'b') ≡ true
      → perform_option k (repeatable g) display_cnt s ≡ faults
  unfolding perform_option
  securebits_faults g display_cnt s h = ground (arith, h)

  continues_first :
      (r : Performed k.State) (next : k.State → Performed k.State) (s' : k.State)
      → and_continue k r next ≡ continues s'
      → (s : k.State) × (next s ≡ continues s')
  continues_first (continues s) next s' h = (s, h)
  continues_first exits next s' h = cc
  continues_first faults next s' h = cc

  never_continues :
      (gs : List Getopt) (display_cnt : ℕ) (s s' : k.State)
      → given b'b' gs ≡ true
      → perform_from k (repeatables gs) display_cnt s ≢ continues s'
  unfolding perform_from
  never_continues [] display_cnt s s' h e = cc
  never_continues (g ∷ gs) display_cnt s s' h e = elim (Bool-cases (g.opt == b'b')) [
    | inl same ↦
        let listed : is_repeatable g.opt ≡ true = ground (arith, same) in
        let stops : faults ≡ continues s' =
          rw (listed, securebits_faults g display_cnt s same) at e in
        cc
    | inr differ ↦
        let later : given b'b' gs ≡ true = rw differ at h in
        elim (Bool-cases (is_repeatable g.opt)) [
          | inl listed ↦
              let (t, goes_on) =
                continues_first (perform_option k (repeatable g) display_cnt s)
                  (perform_from k (repeatables gs) (counted k (repeatable g) display_cnt)) s'
                  (rw listed at e) in
              never_continues gs (counted k (repeatable g) display_cnt) t s' later goes_on
          | inr other ↦ never_continues gs display_cnt s s' later (rw other at e)
        ]
  ]

-- With -b among the options of an accepted command line, perform_repeatable_options does not return,
-- whatever the kernel answers: the argument of -b is not kept.
pub perform_repeatable_options-stops :
    (k : CapKernel) (gs : List Getopt) (rest : List CString) (opts : CmdOptions) (s s' : k.State)
    → parse_command_options gs rest ≡ accepted opts
    → given b'b' gs ≡ true
    → perform_repeatable_options k opts.opt_list s ≢ continues s'
unfolding perform_repeatable_options
perform_repeatable_options-stops k gs rest opts s s' accepts has_b e =
    let read = ((parse_command_options-IsAllowed gs rest opts).0 accepts).1 in
    let list : opts.opt_list ≡ repeatables gs = ap (λ o. o.opt_list) read in
    never_continues k gs 0 s s' has_b (rw list at e)
