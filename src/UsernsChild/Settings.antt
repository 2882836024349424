-- ===== src/UsernsChild/Settings.antt =====
-- What modifyCapSetting does to the capability sets, as one letter of an option -X.
use linux_programming_interf.Common.{
  ◌&&◌, sym, ℕ, ◌≡◌, ◌≢◌, refl, ap, ◌∙◌, Bool, true, false, ◌||◌, none, some, [], ◌∷◌, ◌==◌, ==_iff,
  inl, inr, Bool-cases, Option-cases, if◌then◌else◌,
}
use linux_programming_interf.Common.Text.{CString}
use linux_programming_interf.UsernsChild.Capabilities.{
  CapFlag, cap_effective, cap_permitted, cap_inheritable, CapKernel, modify_cap_setting,
  if_returned,
}

abbrev pub letter_of : CapFlag → ℕ
letter_of cap_effective = b'e'
letter_of cap_permitted = b'p'
letter_of cap_inheritable = b'i'

abbrev pub has_letter : ℕ → CString → Bool
has_letter d [] = false
has_letter d (c ∷ cs) = d == c || has_letter d cs

-- The sets of the letters have the new setting of the capability, the others what they had; other
-- capabilities keep theirs.
abbrev pub AreSet : (k : CapKernel) → CString → ℕ → Bool → k.State → k.State → Type 0
AreSet k letters cap up s s' =
    ((f : CapFlag)
      → k.holds s' f cap ≡ (if has_letter (letter_of f) letters then up else k.holds s f cap))
    × ((f : CapFlag) (n : ℕ) → n ≢ cap → k.holds s' f n ≡ k.holds s f n)

-- The bounding set can only lose the capability, with the letter b and the operator '-'.
abbrev pub AreDropped : (k : CapKernel) → CString → ℕ → Bool → k.State → k.State → Type 0
AreDropped k letters cap up s s' =
    (has_letter b'b' letters ≡ true → up ≡ false)
    × ((n : ℕ)
        → k.bounding s' n ≡ (if has_letter b'b' letters && n == cap then false else k.bounding s n))

-- '+' raises a capability in the ambient set by the letter a. '-' lowers it by that letter, and where it
-- is no longer permitted or inheritable.
abbrev pub ambient_of : Bool → Bool → Bool → Bool → Bool → Bool
ambient_of has_a has_p has_i true before = has_a || before
ambient_of has_a has_p has_i false before =
    if has_a then false else if has_p then false else if has_i then false else before

abbrev pub AreAmbient : (k : CapKernel) → CString → ℕ → Bool → k.State → k.State → Type 0
AreAmbient k letters cap up s s' =
    (k.ambient s' cap
      ≡ ambient_of (has_letter b'a' letters) (has_letter b'p' letters) (has_letter b'i' letters) up
          (k.ambient s cap))
    × ((n : ℕ) → n ≢ cap → k.ambient s' n ≡ k.ambient s n)

kept_within : (b p i : Bool) → (b ≡ true → p ≡ true) → (b ≡ true → i ≡ true) → b && (p && i) ≡ b
kept_within true p i h h' = rw (h refl, h' refl) refl
kept_within false p i h h' = refl

module _ (k : CapKernel) where
  returned-holds :
      (s s' : k.State) (f : CapFlag) (n : ℕ) (up : Bool)
      → if_returned k (modify_cap_setting k s f n up) ≡ some s'
      → (caps : k.Caps) × (caps' : k.Caps) × (k.cap_get_proc s ≡ some caps)
        × (k.cap_set_flag caps f n up ≡ some caps')
        × (k.cap_set_proc s caps' ≡ some s')
  unfolding modify_cap_setting
  returned-holds s s' f n up h = elim (Option-cases (k.cap_get_proc s)) [
    | inl failed ↦ let stops : none ≡ some s' = rw failed at h in absurd (let no : ⊥ = cc in no)
    | inr (caps, got) ↦ elim (Option-cases (k.cap_set_flag caps f n up)) [
      | inl failed ↦
          let stops : none ≡ some s' = rw (got, failed) at h in absurd (let no : ⊥ = cc in no)
      | inr (caps', flagged) ↦ elim (Option-cases (k.cap_set_proc s caps')) [
        | inl failed ↦
            let stops : none ≡ some s' = rw (got, flagged, failed) at h in
            absurd (let no : ⊥ = cc in no)
        | inr (t, pushed_back) ↦
            let freed : if_returned k (t, k.cap_free caps') ≡ some s' =
              rw (got, flagged, pushed_back) at h in
            (caps, caps', got, flagged, pushed_back ∙ same t caps' freed)
      ]
    ]
  ]
    where
      same :
          (t : k.State) (caps' : k.Caps)
          → if_returned k (t, k.cap_free caps') ≡ some s'
          → some t ≡ some s'
      same t caps' e = elim (Bool-cases (k.cap_free caps')) [
        | inl freed ↦ rw freed at e
        | inr failed ↦ let stops : none ≡ some s' = rw failed at e in absurd (let no : ⊥ = cc in no)
      ]

  -- What one letter does.
  abbrev pub LetterDone : ℕ → ℕ → Bool → k.State → k.State → Type 0
  LetterDone c cap up s s' =
      ((f : CapFlag) → k.holds s' f cap ≡ (if letter_of f == c then up else k.holds s f cap))
      × ((f : CapFlag) (n : ℕ) → n ≢ cap → k.holds s' f n ≡ k.holds s f n)
      × (b'b' == c ≡ true → up ≡ false)
      × ((n : ℕ) → k.bounding s' n ≡ (if b'b' == c && n == cap then false else k.bounding s n))
      × (k.ambient s' cap ≡ ambient_of (b'a' == c) (b'p' == c) (b'i' == c) up (k.ambient s cap))
      × ((n : ℕ) → n ≢ cap → k.ambient s' n ≡ k.ambient s n)

  flag_set :
      (s s' : k.State) (caps caps' : k.Caps) (f g : CapFlag) (n : ℕ) (up : Bool)
      → k.cap_get_proc s ≡ some caps
      → k.cap_set_flag caps g n up ≡ some caps'
      → k.cap_set_proc s caps' ≡ some s'
      → k.holds s' f n ≡ (if letter_of f == letter_of g then up else k.holds s f n)
  flag_set s s' caps caps' f g n up got flagged back =
      elim (Bool-cases (letter_of f == letter_of g)) [
        | inl same ↦ rw same (
            k.cap_set_proc_holds s s' caps' back f n
            ∙ rw (same_flag f g same) (k.cap_set_flag_at caps caps' g n up flagged))
        | inr differ ↦ rw differ (
            k.cap_set_proc_holds s s' caps' back f n
            ∙ k.cap_set_flag_flag caps caps' g f n n up flagged (λ e.
              let same : (letter_of f == letter_of g) ≡ true = (==_iff _ _).1 (ap letter_of e) in
              let no : ⊥ = cc in no)
            ∙ k.cap_get_proc_has s caps got f n)
      ]
    where
      same_flag : (f g : CapFlag) → (letter_of f == letter_of g) ≡ true → f ≡ g
      same_flag cap_effective cap_effective e = refl
      same_flag cap_effective cap_permitted e = cc
      same_flag cap_effective cap_inheritable e = cc
      same_flag cap_permitted cap_effective e = cc
      same_flag cap_permitted cap_permitted e = refl
      same_flag cap_permitted cap_inheritable e = cc
      same_flag cap_inheritable cap_effective e = cc
      same_flag cap_inheritable cap_permitted e = cc
      same_flag cap_inheritable cap_inheritable e = refl

  -- The ambient set keeps what is still permitted and inheritable.
  ambient_pushed :
      (s s' : k.State) (caps : k.Caps) (n : ℕ)
      → k.cap_set_proc s caps ≡ some s'
      → k.ambient s' n
        ≡ (k.ambient s n && (k.holds s' cap_permitted n && k.holds s' cap_inheritable n))
  ambient_pushed s s' caps n back =
      k.cap_set_proc_ambient s s' caps back n
      ∙ rw
          (
            sym (k.cap_set_proc_holds s s' caps back cap_permitted n),
            sym (k.cap_set_proc_holds s s' caps back cap_inheritable n),
          )
          refl

  ambient_within :
      (s : k.State) (n : ℕ)
      → k.ambient s n && (k.holds s cap_permitted n && k.holds s cap_inheritable n) ≡ k.ambient s n
  ambient_within s n =
      kept_within (k.ambient s n) (k.holds s cap_permitted n) (k.holds s cap_inheritable n)
        (k.ambient_permitted s n) (k.ambient_inheritable s n)

  ambient_at_cap :
      (g : CapFlag) (up : Bool) (s s' : k.State) (cap : ℕ)
      → ((f : CapFlag)
          → k.holds s' f cap ≡ (if letter_of f == letter_of g then up else k.holds s f cap))
      → k.ambient s cap && (k.holds s' cap_permitted cap && k.holds s' cap_inheritable cap)
        ≡ ambient_of
            (b'a' == letter_of g)
            (b'p' == letter_of g)
            (b'i' == letter_of g)
            up
            (k.ambient s cap)
  ambient_at_cap cap_effective true s s' cap h =
      rw (h cap_permitted, h cap_inheritable) (ambient_within s cap)
  ambient_at_cap cap_effective false s s' cap h =
      rw (h cap_permitted, h cap_inheritable) (ambient_within s cap)
  ambient_at_cap cap_permitted true s s' cap h =
      rw (h cap_permitted, h cap_inheritable)
        (kept_within (k.ambient s cap) true (k.holds s cap_inheritable cap) (λ e. refl)
          (k.ambient_inheritable s cap))
  ambient_at_cap cap_permitted false s s' cap h = rw (h cap_permitted) (never (k.ambient s cap))
    where
      never : (b : Bool) → b && false ≡ false
      never true = refl
      never false = refl
  ambient_at_cap cap_inheritable true s s' cap h =
      rw (h cap_permitted, h cap_inheritable)
        (kept_within (k.ambient s cap) (k.holds s cap_permitted cap) true
          (k.ambient_permitted s cap) (λ e. refl))
  ambient_at_cap cap_inheritable false s s' cap h =
      rw (h cap_permitted, h cap_inheritable)
        (never (k.ambient s cap) (k.holds s cap_permitted cap))
    where
      never : (b p : Bool) → b && (p && false) ≡ false
      never true true = refl
      never true false = refl
      never false p = refl

  pub flag-LetterDone :
      (g : CapFlag) (cap : ℕ) (up : Bool) (s s' : k.State)
      → (b'b' == letter_of g) ≡ false
      → if_returned k (modify_cap_setting k s g cap up) ≡ some s'
      → LetterDone (letter_of g) cap up s s'
  flag-LetterDone g cap up s s' not_bounding h =
      let (caps, caps', got, flagged, back) = returned-holds s s' g cap up h in
      let sets = (λ (f : CapFlag). flag_set s s' caps caps' f g cap up got flagged back) in
      let others = (λ (f : CapFlag) (n : ℕ) (other : n ≢ cap).
        k.cap_set_proc_holds s s' caps' back f n
        ∙ k.cap_set_flag_other caps caps' g f cap n up flagged other
        ∙ k.cap_get_proc_has s caps got f n) in
      (
        sets,
        others,
        (λ e. let no : ⊥ = cc in absurd no),
        (λ n. k.cap_set_proc_bounding s s' caps' back n ∙ rw not_bounding refl),
        ambient_pushed s s' caps' cap back ∙ ambient_at_cap g up s s' cap sets,
        (λ n other.
            ambient_pushed s s' caps' n back
            ∙ rw (others cap_permitted n other, others cap_inheritable n other)
                (ambient_within s n)),
      )
