-- ===== src/UsernsChild/SampleProcess.antt =====
-- A process whose calls succeed, but for raising an ambient capability that is not permitted and
-- inheritable.
use linux_programming_interf.Common.{
  ℕ, ◌≡◌, ◌≢◌, refl, sym, ap, ◌∙◌, Bool, true, false, ◌&&◌, ◌||◌, not, Option, none, some, ◌==◌,
  ==_iff, inl, inr, Bool-cases, arith, if◌then◌else◌,
}
use linux_programming_interf.UsernsChild.Capabilities.{
  CapFlag, cap_effective, cap_permitted, cap_inheritable, Prctl, ambient_raise, ambient_lower,
  capbset_drop, set_securebits, drops, raises, lowers, CapKernel,
}

abbrev pub Sets : Type 0
Sets = CapFlag → ℕ → Bool

abbrev code : CapFlag → ℕ
code cap_effective = 0
code cap_permitted = 1
code cap_inheritable = 2

abbrev pub set_in : Sets → CapFlag → ℕ → Bool → Sets
set_in c f n setting g m = if code g == code f && m == n then setting else c g m

-- The ambient set is what of `raised` is permitted and inheritable.
pub record Proc : Type 0 where
  pub sets : Sets
  pub bound : ℕ → Bool
  pub raised : ℕ → Bool

abbrev within : Sets → ℕ → Bool
within c n = c cap_permitted n && c cap_inheritable n

abbrev ambient_in : Proc → ℕ → Bool
ambient_in s n = s.raised n && within s.sets n

abbrev pub pushed : Proc → Sets → Proc
pushed s c = record { sets = c; bound = s.bound; raised = ambient_in s }

abbrev pub raise : Proc → ℕ → Proc
raise s n = record s { raised = λ m. m == n || s.raised m }

abbrev after_prctl : Proc → Prctl → Option Proc
after_prctl s (ambient_raise n) = if within s.sets n then some (raise s n) else none
after_prctl s (ambient_lower n) = some (record s { raised = λ m. s.raised m && not (m == n) })
after_prctl s (capbset_drop n) = some (record s { bound = λ m. s.bound m && not (m == n) })
after_prctl s (set_securebits n) = some s

pub set_in_flag :
    (c : Sets) (f g : CapFlag) (n m : ℕ) (setting : Bool) → g ≢ f → set_in c f n setting g m ≡ c g m
set_in_flag c f g n m setting h = elim (Bool-cases (code g == code f)) [
  | inl same ↦ absurd (h (same_flag g f same))
  | inr differ ↦ rw differ refl
]
  where
    same_flag : (g f : CapFlag) → (code g == code f) ≡ true → g ≡ f
    same_flag cap_effective cap_effective e = refl
    same_flag cap_effective cap_permitted e = cc
    same_flag cap_effective cap_inheritable e = cc
    same_flag cap_permitted cap_effective e = cc
    same_flag cap_permitted cap_permitted e = refl
    same_flag cap_permitted cap_inheritable e = cc
    same_flag cap_inheritable cap_effective e = cc
    same_flag cap_inheritable cap_permitted e = cc
    same_flag cap_inheritable cap_inheritable e = refl

pub set_in_other :
    (c : Sets) (f g : CapFlag) (n m : ℕ) (setting : Bool) → m ≢ n → set_in c f n setting g m ≡ c g m
set_in_other c f g n m setting h =
    let differ : (m == n) ≡ false = ground (arith, h) in
    elim (Bool-cases (code g == code f)) [
      | inl same ↦ rw (same, differ) refl
      | inr other ↦ rw other refl
    ]

pub set_in_at :
    (c c' : Sets) (f : CapFlag) (n : ℕ) (setting : Bool)
    → some (set_in c f n setting) ≡ some c'
    → c' f n ≡ setting
set_in_at c c' f n setting e =
    let same : set_in c f n setting ≡ c' = cc in
    let flag : (code f == code f) ≡ true = ground arith in
    let number : (n == n) ≡ true = ground arith in
    ap (λ h. h f n) (sym same) ∙ rw (flag, number) refl

abbrev found : Option Sets → Sets
found none = (λ f n. false)
found (some c) = c

-- What an answer holds, where there is one.
abbrev held : Option Proc → Sets
held none = (λ f n. false)
held (some s) = s.sets

abbrev bounded : Option Proc → ℕ → Bool
bounded none = (λ n. false)
bounded (some s) = s.bound

abbrev lit : Option Proc → ℕ → Bool
lit none = (λ n. false)
lit (some s) = ambient_in s

and_true : (b : Bool) → b ≡ b && true
and_true true = refl
and_true false = refl

raised_within :
    (s s' : Proc) (n : ℕ)
    → after_prctl s (ambient_raise n) ≡ some s'
    → (within s.sets n ≡ true) × (raise s n ≡ s')
raised_within s s' n e = elim (Bool-cases (within s.sets n)) [
  | inl good ↦
      let done : some (raise s n) ≡ some s' = rw good at e in (good, ap (λ o. or_else s o) done)
  | inr bad ↦ let stops : none ≡ some s' = rw bad at e in absurd (let no : ⊥ = cc in no)
]
  where
    or_else : Proc → Option Proc → Proc
    or_else s none = s
    or_else s (some t) = t

pub prctl_held :
    (s s' : Proc) (p : Prctl)
    → after_prctl s p ≡ some s'
    → (f : CapFlag) (n : ℕ) → s'.sets f n ≡ s.sets f n
prctl_held s s' (ambient_raise m) e f n = ap (λ t. t.sets f n) (sym (raised_within s s' m e).1)
prctl_held s s' (ambient_lower m) e f n = ap (λ o. held o f n) (sym e)
prctl_held s s' (capbset_drop m) e f n = ap (λ o. held o f n) (sym e)
prctl_held s s' (set_securebits m) e f n = ap (λ o. held o f n) (sym e)

pub prctl_bounded :
    (s s' : Proc) (p : Prctl)
    → after_prctl s p ≡ some s'
    → (n : ℕ) → s'.bound n ≡ (s.bound n && not (drops p n))
prctl_bounded s s' (ambient_raise m) e n =
    ap (λ t. t.bound n) (sym (raised_within s s' m e).1) ∙ and_true (s.bound n)
prctl_bounded s s' (ambient_lower m) e n = ap (λ o. bounded o n) (sym e) ∙ and_true (s.bound n)
prctl_bounded s s' (capbset_drop m) e n = ap (λ o. bounded o n) (sym e)
prctl_bounded s s' (set_securebits m) e n = ap (λ o. bounded o n) (sym e) ∙ and_true (s.bound n)

raise_lit :
    (c : Sets) (r : ℕ → Bool) (m n : ℕ)
    → within c m ≡ true
    → (n == m || r n) && within c n ≡ (n == m || (r n && within c n)) && true
raise_lit c r m n good = elim (Bool-cases (n == m)) [
  | inl same ↦
      let at_m : n ≡ m = (==_iff n m).0 same in
      let good_n : within c n ≡ true = rw at_m good in rw (same, good_n) refl
  | inr other ↦ rw other (and_true (r n && within c n))
]

lower_lit : (r w off : Bool) → (r && not off) && w ≡ (r && w) && not off
lower_lit true true true = refl
lower_lit true true false = refl
lower_lit true false off = ground arith
lower_lit false w off = refl

pub prctl_lit :
    (s s' : Proc) (p : Prctl)
    → after_prctl s p ≡ some s'
    → (n : ℕ) → ambient_in s' n ≡ ((raises p n || ambient_in s n) && not (lowers p n))
prctl_lit s s' (ambient_raise m) e n =
    let (good, same) = raised_within s s' m e in
    ap (λ t. ambient_in t n) (sym same) ∙ raise_lit s.sets s.raised m n good
prctl_lit s s' (ambient_lower m) e n =
    ap (λ o. lit o n) (sym e) ∙ lower_lit (s.raised n) (within s.sets n) (n == m)
prctl_lit s s' (capbset_drop m) e n = ap (λ o. lit o n) (sym e) ∙ and_true (ambient_in s n)
prctl_lit s s' (set_securebits m) e n = ap (λ o. lit o n) (sym e) ∙ and_true (ambient_in s n)

pub and_first : (a b c : Bool) → a && (b && c) ≡ true → b ≡ true
and_first true true c h = refl
and_first true false c h = h
and_first false b c h = absurd (let no : ⊥ = cc in no)

pub and_second : (a b c : Bool) → a && (b && c) ≡ true → c ≡ true
and_second true true c h = h
and_second true false c h = absurd (let no : ⊥ = cc in no)
and_second false b c h = absurd (let no : ⊥ = cc in no)

abbrev pub process : CapKernel
process = record {
  State = Proc;
  Caps = Sets;
  has = λ c. c;
  holds = λ s. s.sets;
  bounding = λ s. s.bound;
  ambient = λ s. ambient_in s;
  cap_get_proc = λ s. some s.sets;
  cap_set_flag = λ c f n setting. some (set_in c f n setting);
  cap_set_proc = λ s c. some (pushed s c);
  cap_free = λ c. true;
  cap_from_name = λ name. some 21;
  cap_from_text = λ text. some (λ f n. false);
  prctl = after_prctl;
  setresuid = λ s r e d. some s;
  atoi = λ text. 0;
  display = λ s n. some s;
  sleep = λ s n. s;
  last_cap = 1;
  cap_get_proc_has = λ s c e f n. ap (λ o. found o f n) (sym e);
  cap_set_flag_at = λ c c' f n setting e. set_in_at c c' f n setting e;
  cap_set_flag_flag = λ c c' f g n m setting e other.
      ap (λ o. found o g m) (sym e) ∙ set_in_flag c f g n m setting other;
  cap_set_flag_other = λ c c' f g n m setting e other.
      ap (λ o. found o g m) (sym e) ∙ set_in_other c f g n m setting other;
  cap_set_proc_holds = λ s s' c e f n. ap (λ o. held o f n) (sym e);
  cap_set_proc_bounding = λ s s' c e n. ap (λ o. bounded o n) (sym e);
  cap_set_proc_ambient = λ s s' c e n. ap (λ o. lit o n) (sym e);
  ambient_permitted =
      λ s n e. and_first (s.raised n) (s.sets cap_permitted n) (s.sets cap_inheritable n) e;
  ambient_inheritable =
      λ s n e. and_second (s.raised n) (s.sets cap_permitted n) (s.sets cap_inheritable n) e;
  prctl_holds = prctl_held;
  prctl_bounding = prctl_bounded;
  prctl_ambient = prctl_lit;
}
