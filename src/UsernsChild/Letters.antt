-- ===== src/UsernsChild/Letters.antt =====
-- What the letters of an option -X do to the capability sets.
use linux_programming_interf.Common.{
  ℕ, ◌≡◌, ◌≢◌, refl, sym, ◌∙◌, Bool, true, false, ◌&&◌, ◌||◌, not, none, some, [], ◌∷◌, ◌==◌,
  ==_iff, inl, inr, Bool-cases, Option-cases, arith, if◌then◌else◌,
}
use linux_programming_interf.Common.Text.{CString}
use linux_programming_interf.UsernsChild.Capabilities.{
  CapFlag, cap_effective, cap_permitted, cap_inheritable, Prctl, ambient_raise, ambient_lower,
  capbset_drop, CapKernel, is_set_letter, modify_letter, modify_letters,
}
use linux_programming_interf.UsernsChild.Settings.{
  letter_of, has_letter, AreSet, AreDropped, AreAmbient, ambient_of, LetterDone, flag-LetterDone,
}

module _ (k : CapKernel) where
  no_letter :
      (c cap : ℕ) (up : Bool) (s s' : k.State) (p : Prctl)
      → is_set_letter c ≡ true
      → (c == b'p') ≡ false
      → (c == b'e') ≡ false
      → (c == b'i') ≡ false
      → k.prctl s p ≡ some s'
      → (f : CapFlag) → k.holds s' f cap ≡ (if letter_of f == c then up else k.holds s f cap)
  no_letter c cap up s s' p is_letter not_p not_e not_i h f =
      let other : (letter_of f == c) ≡ false = apart f in rw other (k.prctl_holds s s' p h f cap)
    where
      apart : (f : CapFlag) → (letter_of f == c) ≡ false
      apart cap_effective = ground (arith, not_e)
      apart cap_permitted = ground (arith, not_p)
      apart cap_inheritable = ground (arith, not_i)

  ambient-LetterDone :
      (c cap : ℕ) (up : Bool) (s s' : k.State)
      → (c == b'a') ≡ true
      → k.prctl s (if up then ambient_raise cap else ambient_lower cap) ≡ some s'
      → LetterDone k c cap up s s'
  ambient-LetterDone c cap true s s' is_a h = rw ((==_iff c _).0 is_a) (
    no_letter b'a' cap true s s' (ambient_raise cap) refl refl refl refl h,
    (λ f n other. k.prctl_holds s s' (ambient_raise cap) h f n),
    (λ e. let no : ⊥ = cc in absurd no),
    (λ n. k.prctl_bounding s s' (ambient_raise cap) h n ∙ and_true (k.bounding s n)),
    k.prctl_ambient s s' (ambient_raise cap) h cap ∙ at_cap cap (k.ambient s cap),
    (λ n other. k.prctl_ambient s s' (ambient_raise cap) h n ∙ off_cap cap n other (k.ambient s n)),
  )
    where
      and_true : (b : Bool) → b && true ≡ b
      and_true true = refl
      and_true false = refl

      at_cap : (n : ℕ) (b : Bool) → ((n == n) || b) && true ≡ true
      at_cap n b = ground arith

      off_cap : (n m : ℕ) → m ≢ n → (b : Bool) → ((m == n) || b) && true ≡ b
      off_cap n m other b = ground (arith, other)
  ambient-LetterDone c cap false s s' is_a h = rw ((==_iff c _).0 is_a) (
    no_letter b'a' cap false s s' (ambient_lower cap) refl refl refl refl h,
    (λ f n other. k.prctl_holds s s' (ambient_lower cap) h f n),
    (λ e. let no : ⊥ = cc in absurd no),
    (λ n. k.prctl_bounding s s' (ambient_lower cap) h n ∙ and_true (k.bounding s n)),
    k.prctl_ambient s s' (ambient_lower cap) h cap ∙ at_cap cap (k.ambient s cap),
    (λ n other. k.prctl_ambient s s' (ambient_lower cap) h n ∙ off_cap cap n other (k.ambient s n)),
  )
    where
      and_true : (b : Bool) → b && true ≡ b
      and_true true = refl
      and_true false = refl

      at_cap : (n : ℕ) (b : Bool) → (false || b) && not (n == n) ≡ false
      at_cap n b = ground arith

      off_cap : (n m : ℕ) → m ≢ n → (b : Bool) → (false || b) && not (m == n) ≡ b
      off_cap n m other b = ground (arith, other)

  drop-LetterDone :
      (c cap : ℕ) (up : Bool) (s s' : k.State)
      → (c == b'b') ≡ true
      → (if up then none else k.prctl s (capbset_drop cap)) ≡ some s'
      → LetterDone k c cap up s s'
  drop-LetterDone c cap true s s' is_b h = cc
  drop-LetterDone c cap false s s' is_b h = rw ((==_iff c _).0 is_b) (
    no_letter b'b' cap false s s' (capbset_drop cap) refl refl refl refl h,
    (λ f n other. k.prctl_holds s s' (capbset_drop cap) h f n),
    (λ e. refl),
    (λ n. k.prctl_bounding s s' (capbset_drop cap) h n ∙ dropped (n == cap) (k.bounding s n)),
    k.prctl_ambient s s' (capbset_drop cap) h cap ∙ and_true (k.ambient s cap),
    (λ n other. k.prctl_ambient s s' (capbset_drop cap) h n ∙ and_true (k.ambient s n)),
  )
    where
      and_true : (b : Bool) → b && true ≡ b
      and_true true = refl
      and_true false = refl

      dropped : (at_cap b : Bool) → b && not at_cap ≡ (if at_cap then false else b)
      dropped true true = refl
      dropped true false = refl
      dropped false b = and_true b

  modify_letter-LetterDone :
      (c cap : ℕ) (up : Bool) (s s' : k.State)
      → modify_letter k c cap up s ≡ some s'
      → LetterDone k c cap up s s'
  unfolding modify_letter
  modify_letter-LetterDone c cap up s s' h = elim (Bool-cases (c == b'p')) [
    | inl p ↦ rw ((==_iff c _).0 p) (flag-LetterDone k cap_permitted cap up s s' refl (rw p at h))
    | inr not_p ↦ elim (Bool-cases (c == b'e')) [
      | inl e ↦
          rw ((==_iff c _).0 e)
            (flag-LetterDone k cap_effective cap up s s' refl (rw (not_p, e) at h))
      | inr not_e ↦ elim (Bool-cases (c == b'i')) [
        | inl i ↦
            rw ((==_iff c _).0 i)
              (flag-LetterDone k cap_inheritable cap up s s' refl (rw (not_p, not_e, i) at h))
        | inr not_i ↦ elim (Bool-cases (c == b'b')) [
          | inl b ↦ drop-LetterDone c cap up s s' b (rw (not_p, not_e, not_i, b) at h)
          | inr not_b ↦ elim (Bool-cases (c == b'a')) [
            | inl a ↦ ambient-LetterDone c cap up s s' a (rw (not_p, not_e, not_i, not_b, a) at h)
            | inr not_a ↦
                let stops : none ≡ some s' = rw (not_p, not_e, not_i, not_b, not_a) at h in
                absurd (let no : ⊥ = cc in no)
          ]
        ]
      ]
    ]
  ]

  pub modify_letters-AreSet :
      (cs : CString) (cap : ℕ) (up : Bool) (s s' : k.State)
      → modify_letters k cs cap up s ≡ some s'
      → AreSet k cs cap up s s' × AreDropped k cs cap up s s' × AreAmbient k cs cap up s s'
  unfolding modify_letters
  modify_letters-AreSet [] cap up s s' h =
      let same : s ≡ s' = cc in
      rw (sym same) (
        ((λ f. refl), (λ f n other. refl)),
        ((λ e. cc), (λ n. refl)),
        (untouched up (k.ambient s cap), (λ n other. refl)),
      )
    where
      untouched : (up b : Bool) → b ≡ ambient_of false false false up b
      untouched true b = refl
      untouched false b = refl
  modify_letters-AreSet (c ∷ cs) cap up s s' h = elim (Option-cases (modify_letter k c cap up s)) [
    | inl failed ↦ let stops : none ≡ some s' = rw failed at h in absurd (let no : ⊥ = cc in no)
    | inr (t, done) ↦
        let (here, others, down, bounds, ambient, apart) =
          modify_letter-LetterDone c cap up s t done in
        let (sets, dropped, raised) = modify_letters-AreSet cs cap up t s' (rw done at h) in
        (
          (
            (λ f.
                sets.0 f ∙ joined (k.holds t f cap) (k.holds s f cap) (letter_of f) c cs (here f)),
            (λ f n other. sets.1 f n other ∙ others f n other),
          ),
          (
            (λ e. elim (Bool-cases (b'b' == c)) [
              | inl same ↦ down same
              | inr differ ↦ dropped.0 (rw differ at e)
            ]),
            (λ n.
                dropped.1 n
                ∙ bounded (has_letter b'b' cs) (b'b' == c) (n == cap) (k.bounding t n)
                    (k.bounding s n) (bounds n)),
          ),
          (
            raised.0
                ∙ rw ambient (
                    composed up (b'a' == c) (b'p' == c) (b'i' == c) (has_letter b'a' cs)
                      (has_letter b'p' cs) (has_letter b'i' cs) (k.ambient s cap)),
            (λ n other. raised.1 n other ∙ apart n other),
          ),
        )
  ]
    where
      joined :
          (now before : Bool) (d c : ℕ) (cs : CString)
          → now ≡ (if d == c then up else before)
          → (if has_letter d cs then up else now) ≡ (if has_letter d (c ∷ cs) then up else before)
      joined now before d c cs e = ground (arith, e)

      bounded :
          (later this at_cap now before : Bool)
          → now ≡ (if this && at_cap then false else before)
          → (if later && at_cap then false else now)
            ≡ (if (this || later) && at_cap then false else before)
      bounded later this at_cap now before e = ground (arith, e)

      composed :
          (up a p i a' p' i' b : Bool)
          → ambient_of a' p' i' up (ambient_of a p i up b)
            ≡ ambient_of (a || a') (p || p') (i || i') up b
      composed up a p i a' p' i' b = ground arith
