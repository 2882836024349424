-- ===== src/Threads/OneTime/Progress.antt =====
-- The steps that the threads can still make.
use linux_programming_interf.Common.{
  ℕ, zero, suc, ◌+◌, ◌<◌, ◌≡◌, ◌⊎◌, inl, inr, refl, Bool, true, false, some, List, [], ◌∷◌,
  get_elem?, arith,
}
use linux_programming_interf.Common.Steps.{Run}
use linux_programming_interf.Common.Sums.{sum}
use linux_programming_interf.Threads.OneTime.{
  Phase, outside, entered, initialised, leaving, State, state_of, Step, lock, initialise, mark,
  skip, unlock, initial,
}
use linux_programming_interf.Threads.OneTime.Once.{inside_1, reached-Inv}

-- The calls of a thread that have not returned.
abbrev pub pending_1 : Phase → ℕ
pending_1 (outside k) = k
pending_1 (entered k) = suc k
pending_1 (initialised k) = suc k
pending_1 (leaving k) = suc k

-- An element that counts.
find_positive :
    (f : Phase → ℕ) (ts : List Phase)
    → (sum f ts ≡ 0) ⊎ ((idx : ℕ) × (p : Phase) × (get_elem? ts idx ≡ some p) × (0 < f p))
find_positive f [] = inl refl
find_positive f (t ∷ ts) = found (f t) refl (find_positive f ts)
  where
    found :
        (k : ℕ)
        → f t ≡ k
        → (sum f ts ≡ 0) ⊎ ((idx : ℕ) × (p : Phase) × (get_elem? ts idx ≡ some p) × (0 < f p))
        → (f t + sum f ts ≡ 0)
          ⊎ ((idx : ℕ) × (p : Phase) × (get_elem? (t ∷ ts) idx ≡ some p) × (0 < f p))
    found zero e (inl h) = inl (omega (arith, e, h))
    found zero e (inr (idx, p, at, h)) = inr (suc idx, p, at, h)
    found (suc k) e r = inr (0, t, refl, omega (arith, e))

abbrev CanStep : State → Type 0
CanStep s = (t : State) × Step s t

-- The thread inside can go on.
inside-CanStep :
    (ts : List Phase) (locked called : Bool) (inits returned idx : ℕ) (p : Phase)
    → get_elem? ts idx ≡ some p
    → 0 < inside_1 p
    → CanStep (state_of ts locked called inits returned)
inside-CanStep ts locked called inits returned idx (outside k) at h =
    absurd (let no : ⊥ = omega (arith, h) in no)
inside-CanStep ts locked true inits returned idx (entered k) at h = (_, skip idx k at)
inside-CanStep ts locked false inits returned idx (entered k) at h = (_, initialise idx k at)
inside-CanStep ts locked called inits returned idx (initialised k) at h = (_, mark idx k at)
inside-CanStep ts locked called inits returned idx (leaving k) at h = (_, unlock idx k at)

-- With the mutex free, a thread outside can lock it.
free-CanStep :
    (ts : List Phase) (called : Bool) (inits returned idx : ℕ) (p : Phase)
    → get_elem? ts idx ≡ some p
    → 0 < pending_1 p
    → CanStep (state_of ts false called inits returned)
free-CanStep ts called inits returned idx (outside zero) at h =
    absurd (let no : ⊥ = omega (arith, h) in no)
free-CanStep ts called inits returned idx (outside (suc k)) at h = (_, lock idx k at)
free-CanStep ts called inits returned idx (entered k) at h =
    inside-CanStep ts false called inits returned idx (entered k) at (omega arith)
free-CanStep ts called inits returned idx (initialised k) at h =
    inside-CanStep ts false called inits returned idx (initialised k) at (omega arith)
free-CanStep ts called inits returned idx (leaving k) at h =
    inside-CanStep ts false called inits returned idx (leaving k) at (omega arith)

-- one_time_init: wherever a call has not returned, some thread can go on, whatever was done before.
pub reached-Progress :
    (calls : List ℕ) (ts : List Phase) (locked called : Bool) (inits returned : ℕ)
    → Run Step (initial calls) (state_of ts locked called inits returned)
    → (sum pending_1 ts ≡ 0) ⊎ CanStep (state_of ts locked called inits returned)
reached-Progress calls ts false called inits returned run = elim (find_positive pending_1 ts) [
  | inl done ↦ inl done
  | inr (idx, p, at, h) ↦ inr (free-CanStep ts called inits returned idx p at h)
]
reached-Progress calls ts true called inits returned run =
    let (i, n, c, l) = reached-Inv calls _ run in
    elim (find_positive inside_1 ts) [
      | inl empty ↦ absurd (let no : ⊥ = omega (arith, i, empty) in no)
      | inr (idx, p, at, h) ↦ inr (inside-CanStep ts true called inits returned idx p at h)
    ]
