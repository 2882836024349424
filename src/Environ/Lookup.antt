-- ===== src/Environ/Lookup.antt =====
-- What getenv() finds after `unsetenv` and `setenv`.
use linux_programming_interf.Common.{
  ◌≡◌, ◌≢◌, refl, ap, ap₂, sym, ◌∙◌, Bool, true, false, Option, none, some, List, [], ◌∷◌, ◌++◌,
  inl, inr, arith, ◌==◌, Bool-cases, Option-cases,
}
use linux_programming_interf.Common.Text.{CString, Lacks}
use linux_programming_interf.Environ.{
  Answer, success, value_of, getenv, has_equals, is_bad, remove_all, unsetenv, putenv, replace,
  setenv,
}

-- A name has no '='.
abbrev pub IsName : CString → Type 0
IsName name = Lacks b'=' name

has_equals-IsName : (name : CString) → has_equals name ≡ false → IsName name
has_equals-IsName [] h = tt
has_equals-IsName (c ∷ cs) h = (ground (arith, h), has_equals-IsName cs (ground (arith, h)))

value_of-entry : (name value : CString) → value_of name (name ++ b'=' ∷ value) ≡ some value
unfolding value_of
value_of-entry [] value = refl
value_of-entry (c ∷ name) value =
    let same : (c == c) ≡ true = ground arith in rw (same, value_of) (value_of-entry name value)

-- An entry is one name's only.
value_of_unique :
    (name other entry v : CString)
    → IsName name
    → IsName other
    → name ≢ other
    → value_of name entry ≡ some v
    → value_of other entry ≡ none
unfolding value_of
value_of_unique [] [] entry v h h' n e = absurd (n refl)
value_of_unique [] (o ∷ other) [] v h h' n e = refl
value_of_unique [] (o ∷ other) (c ∷ cs) v h (h', hs') n e = ground (arith, e, h')
value_of_unique (x ∷ name) [] [] v h h' n e = refl
value_of_unique (x ∷ name) [] (c ∷ cs) v (h, hs) h' n e = ground (arith, e, h)
value_of_unique (x ∷ name) (o ∷ other) [] v h h' n e = refl
value_of_unique (x ∷ name) (o ∷ other) (c ∷ cs) v (h, hs) (h', hs') n e =
    elim (Bool-cases (o == c)) [
      | inr differ ↦ rw (differ, value_of) refl
      | inl same ↦
          let at : (x == c) ≡ true = ground (arith, e) in
          let heads : x ≡ o = ground (arith, at, same) in
          let tails : name ≢ other = λ q. n (ap₂ (λ y ys. y ∷ ys) heads q) in
          rw (same, value_of)
            (value_of_unique name other cs v hs hs' tails (rw (at, value_of) at e))
    ]

getenv-remove_all_self :
    (name : CString) (es : List CString) → getenv name (remove_all name es) ≡ none
unfolding getenv remove_all
getenv-remove_all_self name [] = refl
getenv-remove_all_self name (e ∷ es) = elim (Option-cases (value_of name e)) [
  | inl out ↦ rw (out, remove_all) (rw (out, getenv) (getenv-remove_all_self name es))
  | inr (v, found) ↦ rw (found, remove_all) (getenv-remove_all_self name es)
]

-- An entry in front that does not decide.
getenv-cons :
    (name e : CString) (es fs : List CString)
    → getenv name es ≡ getenv name fs
    → getenv name (e ∷ es) ≡ getenv name (e ∷ fs)
unfolding getenv
getenv-cons name e es fs h = elim (Option-cases (value_of name e)) [
  | inl out ↦ rw (out, getenv) h
  | inr (v, found) ↦ rw (found, getenv) refl
]

getenv-skip :
    (name e : CString) (es : List CString)
    → value_of name e ≡ none
    → getenv name (e ∷ es) ≡ getenv name es
unfolding getenv
getenv-skip name e es out = rw (out, getenv) refl

getenv-hit :
    (name e v : CString) (es : List CString)
    → value_of name e ≡ some v
    → getenv name (e ∷ es) ≡ some v
unfolding getenv
getenv-hit name e v es found = rw (found, getenv) refl

getenv-remove_all_other :
    (name other : CString) (es : List CString)
    → IsName name
    → IsName other
    → name ≢ other
    → getenv other (remove_all name es) ≡ getenv other es
unfolding remove_all
getenv-remove_all_other name other [] h h' n = refl
getenv-remove_all_other name other (e ∷ es) h h' n = elim (Option-cases (value_of name e)) [
  | inl out ↦
      rw (out, remove_all)
        (getenv-cons other e (remove_all name es) es (getenv-remove_all_other name other es h h' n))
  | inr (v, found) ↦
      rw (found, remove_all)
        (getenv-remove_all_other name other es h h' n
          ∙ sym (getenv-skip other e es (value_of_unique name other e v h h' n found)))
]

-- With no entry for the name, putenv() appends.
putenv-append :
    (name entry : CString) (es : List CString)
    → getenv name es ≡ none
    → putenv name entry es ≡ es ++ entry ∷ []
unfolding putenv
putenv-append name entry [] h = refl
putenv-append name entry (e ∷ es) h = elim (Option-cases (value_of name e)) [
  | inl out ↦
      rw (out, putenv)
        (ap (λ ys. e ∷ ys) (putenv-append name entry es (sym (getenv-skip name e es out) ∙ h)))
  | inr (v, found) ↦ cc (getenv-hit name e v es found, h)
]

getenv-append_self :
    (name entry v : CString) (es : List CString)
    → getenv name es ≡ none
    → value_of name entry ≡ some v
    → getenv name (es ++ entry ∷ []) ≡ some v
getenv-append_self name entry v [] h found = getenv-hit name entry v [] found
getenv-append_self name entry v (e ∷ es) h found = elim (Option-cases (value_of name e)) [
  | inl out ↦
      getenv-skip name e (es ++ entry ∷ []) out
      ∙ getenv-append_self name entry v es (sym (getenv-skip name e es out) ∙ h) found
  | inr (w, hit) ↦ cc (getenv-hit name e w es hit, h)
]

getenv-append_other :
    (name entry : CString) (es : List CString)
    → value_of name entry ≡ none
    → getenv name (es ++ entry ∷ []) ≡ getenv name es
getenv-append_other name entry [] out = getenv-skip name entry [] out
getenv-append_other name entry (e ∷ es) out =
    getenv-cons name e (es ++ entry ∷ []) es (getenv-append_other name entry es out)

-- The new value, or the old one where it stays.
abbrev pub chosen : Option CString → Bool → CString → Option CString
chosen none overwrite value = some value
chosen (some v) true value = some value
chosen (some v) false value = some v

-- What a call leaves: the name has `v`, and other names are as they were.
abbrev pub Leaves : CString → Option CString → List CString → Answer × List CString → Type 0
Leaves name v es (answer, fs) =
    (answer ≡ success)
    × (getenv name fs ≡ v)
    × ((other : CString) → IsName other → name ≢ other → getenv other fs ≡ getenv other es)

-- unsetenv: for a name that is not empty and has no '=', the call succeeds, getenv() finds no value
-- for the name any more, however many entries it had, and what it finds for all other names is
-- unchanged.
pub unsetenv-Leaves :
    (name : CString) (es : List CString)
    → is_bad (some name) ≡ false
    → Leaves name none es (unsetenv (some name) es)
unfolding unsetenv
unsetenv-Leaves [] es good = cc (good)
unsetenv-Leaves (c ∷ cs) es good =
    let h : IsName (c ∷ cs) = has_equals-IsName (c ∷ cs) good in
    rw (good, unsetenv)
      (
        refl,
        getenv-remove_all_self (c ∷ cs) es,
        λ other h' n. getenv-remove_all_other (c ∷ cs) other es h h' n,
      )

replace-Leaves :
    (name value : CString) (es : List CString)
    → IsName name
    → Leaves name (some value) es (replace true true name value es)
unfolding replace
replace-Leaves name value es h =
    let gone : getenv name (remove_all name es) ≡ none = getenv-remove_all_self name es in
    let entry : CString = name ++ b'=' ∷ value in
    let found : value_of name entry ≡ some value = value_of-entry name value in
    rw (putenv-append name (name ++ b'=' ∷ value) (remove_all name es) gone, replace)
      (
        refl,
        getenv-append_self name entry value (remove_all name es) gone found,
        λ other h' n.
            getenv-append_other other entry (remove_all name es)
              (value_of_unique name other entry value h h' n found)
            ∙ getenv-remove_all_other name other es h h' n,
      )

-- setenv: for a name that is not empty and has no '=', and if memory suffices, the call succeeds;
-- getenv() then finds the new value for the name, or the old one if there was one and it is not to be
-- overwritten, and for all other names what it found before.
pub setenv-Leaves :
    (name value : CString) (overwrite : Bool) (es : List CString)
    → is_bad (some name) ≡ false
    → Leaves name
        (chosen (getenv name es) overwrite value)
        es
        (setenv true true (some name) (some value) overwrite es)
unfolding setenv
setenv-Leaves [] value overwrite es good = cc (good)
setenv-Leaves (c ∷ cs) value true es good = elim (Option-cases (getenv (c ∷ cs) es)) [
  | inl out ↦
      rw (good, out, setenv) (replace-Leaves (c ∷ cs) value es (has_equals-IsName (c ∷ cs) good))
  | inr (v, found) ↦
      rw (good, found, setenv) (replace-Leaves (c ∷ cs) value es (has_equals-IsName (c ∷ cs) good))
]
setenv-Leaves (c ∷ cs) value false es good = elim (Option-cases (getenv (c ∷ cs) es)) [
  | inl out ↦
      rw (good, out, setenv) (replace-Leaves (c ∷ cs) value es (has_equals-IsName (c ∷ cs) good))
  | inr (v, found) ↦ rw (good, found, setenv) (refl, found, λ other h' n. refl)
]
