-- ===== src/UsernsChild/Repeatable.antt =====
-- perform_repeatable_options of book-src/namespaces/userns_child_exec.c, with set_securebits and
-- set_process_uids.
use Prim.Native.Nat.{bit_or}
use linux_programming_interf.Common.{
  ℕ, ◌+◌, true, false, Option, none, some, List, [], ◌∷◌, ◌==◌, if◌then◌else◌,
}
use linux_programming_interf.Common.Text.{CString}
use linux_programming_interf.Timers.{cut}
use linux_programming_interf.UsernsChild.{RepeatableOption}
use linux_programming_interf.UsernsChild.Capabilities.{
  CapKernel, set_securebits, and_some, raise_inheritable_and_ambient_caps,
  modify_individual_capability,
}

-- How an option ends: the loop goes on, the program exits with EXIT_FAILURE, or it reads through NULL.
pub data Performed (S : Type 0) : Type 0 where
  continues : S → Performed S
  exits : Performed S
  faults : Performed S

-- The loop of set_securebits over its argument, from the bits `secbits` on.
unfoldable pub securebits_from : CString → ℕ → Option ℕ
securebits_from [] secbits = some secbits
securebits_from (c ∷ cs) secbits =
    let noroot = securebits_from cs (bit_or secbits 1) in
    let no_fixup = securebits_from cs (bit_or secbits 4) in
    let cleared = securebits_from cs 0 in
    if c == b'r'
    then noroot
    else if c == b's'
    then no_fixup
    else if c == b'0'
    then cleared
    else none

module _ (k : CapKernel) where
  abbrev pub or_exit : Option k.State → Performed k.State
  or_exit none = exits
  or_exit (some s) = continues s

  -- `*p` for a pointer that is NULL where there is no value.
  abbrev pub read_value : Option CString → (CString → Option k.State) → Performed k.State
  read_value none use_value = faults
  read_value (some val) use_value = or_exit (use_value val)

  unfoldable pub set_secbits : CString → k.State → Option k.State
  unfolding securebits_from
  set_secbits optval s =
      and_some k (securebits_from optval 0) (λ secbits. k.prctl s (set_securebits secbits))

  -- The last two of the three values.
  abbrev pub with_second : k.State → ℕ → CString × Option CString → Option k.State
  with_second s real (effective, none) = none
  with_second s real (effective, some saved) = k.setresuid s real (k.atoi effective) (k.atoi saved)

  abbrev pub with_first : k.State → CString × Option CString → Option k.State
  with_first s (real, none) = none
  with_first s (real, some others) = with_second s (k.atoi real) (cut b',' others)

  unfoldable pub set_process_uids : CString → k.State → Option k.State
  set_process_uids optval s = with_first s (cut b',' optval)

  abbrev pub set_all_uids : k.State → ℕ → Option k.State
  set_all_uids s newuid = k.setresuid s newuid newuid newuid

  -- `switch (opts->opt_list[j].opt)`, with `display_cnt`; another option only prints a message.
  unfoldable pub perform_option : RepeatableOption → ℕ → k.State → Performed k.State
  unfolding raise_inheritable_and_ambient_caps set_secbits set_process_uids
      modify_individual_capability
  perform_option o display_cnt s =
      if o.opt == b'a'
      then continues (raise_inheritable_and_ambient_caps k true s)
      else if o.opt == b'b'
      then read_value o.val (λ val. set_secbits val s)
      else if o.opt == b'd'
      then or_exit (k.display s (display_cnt + 1))
      else if o.opt == b'h'
      then continues (raise_inheritable_and_ambient_caps k false s)
      else if o.opt == b's'
      then read_value o.val (λ val. set_all_uids s (k.atoi val))
      else if o.opt == b'S'
      then read_value o.val (λ val. set_process_uids val s)
      else if o.opt == b'w'
      then read_value o.val (λ val. some (k.sleep s (k.atoi val)))
      else if o.opt == b'x'
      then read_value o.val (λ val. and_some k (k.cap_from_text val) (k.cap_set_proc s))
      else if o.opt == b'X'
      then read_value o.val (λ val. modify_individual_capability k val s)
      else continues s

  abbrev pub and_continue : Performed k.State → (k.State → Performed k.State) → Performed k.State
  and_continue (continues s) next = next s
  and_continue exits next = exits
  and_continue faults next = faults

  abbrev pub counted : RepeatableOption → ℕ → ℕ
  counted o display_cnt = if o.opt == b'd' then display_cnt + 1 else display_cnt

  -- The loop.
  unfoldable pub perform_from : List RepeatableOption → ℕ → k.State → Performed k.State
  unfolding perform_option
  perform_from [] display_cnt s = continues s
  perform_from (o ∷ os) display_cnt s =
      and_continue (perform_option o display_cnt s) (perform_from os (counted o display_cnt))

  unfoldable pub perform_repeatable_options : List RepeatableOption → k.State → Performed k.State
  unfolding perform_from
  perform_repeatable_options os s = perform_from os 0 s
