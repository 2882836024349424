-- ===== src/UsernsChild/Capabilities.antt =====
-- The capability sets of a process: modifyCapSetting of book-src/cap/cap_functions.c, and
-- raiseInheritableAndAmbientCaps and modify_individual_capability of
-- book-src/namespaces/userns_child_exec.c. libcap, prctl() and setresuid() are a parameter.
use linux_programming_interf.Common.{
  ℕ, zero, suc, ◌+◌, ◌≡◌, ◌≢◌, Bool, true, false, ◌&&◌, ◌||◌, not, Option, none, some, [], ◌∷◌,
  ◌==◌, if◌then◌else◌,
}
use linux_programming_interf.Common.Text.{CString}

pub data CapFlag : Type 0 where
  cap_effective : CapFlag
  cap_permitted : CapFlag
  cap_inheritable : CapFlag

-- The calls of prctl(), but for PR_SET_DUMPABLE.
pub data Prctl : Type 0 where
  ambient_raise : ℕ → Prctl
  ambient_lower : ℕ → Prctl
  capbset_drop : ℕ → Prctl
  set_securebits : ℕ → Prctl

-- The capabilities that a call drops from the bounding set, and raises and lowers in the ambient set.
abbrev pub drops : Prctl → ℕ → Bool
drops (capbset_drop m) n = n == m
drops _ n = false

abbrev pub raises : Prctl → ℕ → Bool
raises (ambient_raise m) n = n == m
raises _ n = false

abbrev pub lowers : Prctl → ℕ → Bool
lowers (ambient_lower m) n = n == m
lowers _ n = false

-- `none` is an error. `has`, `holds`, `bounding` and `ambient` are what a working
-- set or a process holds; `State` is the process, with all
-- that the calls change.
pub record CapKernel : Type 1 where
  pub State : Type 0
  pub Caps : Type 0
  pub has : Caps → CapFlag → ℕ → Bool
  pub holds : State → CapFlag → ℕ → Bool
  pub bounding : State → ℕ → Bool
  pub ambient : State → ℕ → Bool
  pub cap_get_proc : State → Option Caps
  pub cap_set_flag : Caps → CapFlag → ℕ → Bool → Option Caps
  pub cap_set_proc : State → Caps → Option State
  pub cap_free : Caps → Bool
  pub cap_from_name : CString → Option ℕ
  pub cap_from_text : CString → Option Caps
  pub prctl : State → Prctl → Option State
  pub setresuid : State → ℕ → ℕ → ℕ → Option State
  pub atoi : CString → ℕ
  pub display : State → ℕ → Option State
  pub sleep : State → ℕ → State
  pub last_cap : ℕ
  pub cap_get_proc_has :
      (s : State) (c : Caps)
      → cap_get_proc s ≡ some c
      → (f : CapFlag) (n : ℕ) → has c f n ≡ holds s f n
  pub cap_set_flag_at :
      (c c' : Caps) (f : CapFlag) (n : ℕ) (setting : Bool)
      → cap_set_flag c f n setting ≡ some c'
      → has c' f n ≡ setting
  pub cap_set_flag_flag :
      (c c' : Caps) (f g : CapFlag) (n m : ℕ) (setting : Bool)
      → cap_set_flag c f n setting ≡ some c'
      → g ≢ f
      → has c' g m ≡ has c g m
  pub cap_set_flag_other :
      (c c' : Caps) (f g : CapFlag) (n m : ℕ) (setting : Bool)
      → cap_set_flag c f n setting ≡ some c'
      → m ≢ n
      → has c' g m ≡ has c g m
  pub cap_set_proc_holds :
      (s s' : State) (c : Caps)
      → cap_set_proc s c ≡ some s'
      → (f : CapFlag) (n : ℕ) → holds s' f n ≡ has c f n
  pub cap_set_proc_bounding :
      (s s' : State) (c : Caps)
      → cap_set_proc s c ≡ some s'
      → (n : ℕ) → bounding s' n ≡ bounding s n
  pub prctl_holds :
      (s s' : State) (p : Prctl)
      → prctl s p ≡ some s'
      → (f : CapFlag) (n : ℕ) → holds s' f n ≡ holds s f n
  -- A capability that is no longer permitted and inheritable is lowered in the ambient set.
  pub cap_set_proc_ambient :
      (s s' : State) (c : Caps)
      → cap_set_proc s c ≡ some s'
      → (n : ℕ) → ambient s' n ≡ (ambient s n && (has c cap_permitted n && has c cap_inheritable n))
  pub ambient_permitted : (s : State) (n : ℕ) → ambient s n ≡ true → holds s cap_permitted n ≡ true
  pub ambient_inheritable :
      (s : State) (n : ℕ) → ambient s n ≡ true → holds s cap_inheritable n ≡ true
  pub prctl_bounding :
      (s s' : State) (p : Prctl)
      → prctl s p ≡ some s'
      → (n : ℕ) → bounding s' n ≡ (bounding s n && not (drops p n))
  pub prctl_ambient :
      (s s' : State) (p : Prctl)
      → prctl s p ≡ some s'
      → (n : ℕ) → ambient s' n ≡ ((raises p n || ambient s n) && not (lowers p n))

module _ (k : CapKernel) where
  abbrev pub and_some : {A B : Type 0} → Option A → (A → Option B) → Option B
  and_some none f = none
  and_some (some a) f = f a

  -- The process when it returns, and whether it returns 0. A failure of cap_free() is reported after
  -- the process has changed.
  abbrev pub pushed : k.State → k.Caps → Option k.State → k.State × Bool
  pushed s caps none = (s, false)
  pushed s caps (some s') = (s', k.cap_free caps)

  abbrev pub with_flag : k.State → Option k.Caps → k.State × Bool
  with_flag s none = (s, false)
  with_flag s (some caps) = pushed s caps (k.cap_set_proc s caps)

  abbrev pub with_caps : k.State → CapFlag → ℕ → Bool → Option k.Caps → k.State × Bool
  with_caps s flag capability setting none = (s, false)
  with_caps s flag capability setting (some caps) =
      with_flag s (k.cap_set_flag caps flag capability setting)

  unfoldable pub modify_cap_setting : k.State → CapFlag → ℕ → Bool → k.State × Bool
  modify_cap_setting s flag capability setting =
      with_caps s flag capability setting (k.cap_get_proc s)

  abbrev pub or_same : k.State → Option k.State → k.State
  or_same s none = s
  or_same s (some s') = s'

  -- One round of raiseInheritableAndAmbientCaps, which ignores errors.
  unfoldable pub raise_cap : Bool → ℕ → k.State → k.State
  unfolding modify_cap_setting
  raise_cap do_ambient cap s =
      let raised = (modify_cap_setting s cap_inheritable cap true).0 in
      if do_ambient then or_same raised (k.prctl raised (ambient_raise cap)) else raised

  -- The rounds from `cap` on, for a number of them.
  unfoldable pub raise_from : Bool → ℕ → ℕ → k.State → k.State
  unfolding raise_cap
  raise_from do_ambient zero cap s = s
  raise_from do_ambient (suc left) cap s =
      raise_from do_ambient left (cap + 1) (raise_cap do_ambient cap s)

  unfoldable pub raise_inheritable_and_ambient_caps : Bool → k.State → k.State
  unfolding raise_from
  raise_inheritable_and_ambient_caps do_ambient s = raise_from do_ambient (k.last_cap + 1) 0 s

abbrev pub is_op : ℕ → Bool
is_op c = c == b'+' || c == b'-'

abbrev pub is_set_letter : ℕ → Bool
is_set_letter c = c == b'p' || c == b'e' || c == b'i' || c == b'b' || c == b'a'

-- The letters in front of the operator, and the text from the operator on.
unfoldable pub until_op : CString → CString × CString
until_op [] = ([], [])
until_op (c ∷ cs) = let rest = until_op cs in if is_op c then ([], c ∷ cs) else (c ∷ rest.0, rest.1)

-- `bad_cap` is not set.
abbrev pub all_letters : CString → Bool
all_letters [] = true
all_letters (c ∷ cs) = is_set_letter c && all_letters cs

module _ (k : CapKernel) where
  abbrev pub if_returned : k.State × Bool → Option k.State
  if_returned (s, false) = none
  if_returned (s, true) = some s

  -- `switch (*p)`; `none` ends the program.
  unfoldable pub modify_letter : ℕ → ℕ → Bool → k.State → Option k.State
  unfolding modify_cap_setting
  modify_letter c cap up s =
      if c == b'p'
      then if_returned (modify_cap_setting k s cap_permitted cap up)
      else if c == b'e'
      then if_returned (modify_cap_setting k s cap_effective cap up)
      else if c == b'i'
      then if_returned (modify_cap_setting k s cap_inheritable cap up)
      else if c == b'b'
      then (if up then none else k.prctl s (capbset_drop cap))
      else if c == b'a'
      then k.prctl s (if up then ambient_raise cap else ambient_lower cap)
      else none

  -- The walk over the letters.
  unfoldable pub modify_letters : CString → ℕ → Bool → k.State → Option k.State
  unfolding modify_letter
  modify_letters [] cap up s = some s
  modify_letters (c ∷ cs) cap up s =
      and_some k (modify_letter c cap up s) (modify_letters cs cap up)

  -- Behind the loop over the letters.
  abbrev pub with_op : CString → CString → k.State → Option k.State
  with_op letters [] s = none
  with_op letters (op ∷ []) s = none
  with_op letters (op ∷ c ∷ cs) s =
      if all_letters letters
      then and_some k (k.cap_from_name (c ∷ cs)) (λ cap. modify_letters letters cap (op == b'+') s)
      else none

  unfoldable pub modify_individual_capability : CString → k.State → Option k.State
  unfolding until_op modify_letters
  modify_individual_capability optval s = with_op (until_op optval).0 (until_op optval).1 s
