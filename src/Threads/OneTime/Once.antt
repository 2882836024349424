-- ===== src/Threads/OneTime/Once.antt =====
-- When the initialisation is done.
use linux_programming_interf.Common.{
  ℕ, suc, ◌+◌, ◌≤◌, ◌≡◌, ◌⊎◌, inl, inr, refl, Bool, true, false, some, List, [], ◌∷◌, map,
  get_elem?, set, arith,
}
use linux_programming_interf.Common.Steps.{Run, Run-keeps}
use linux_programming_interf.Common.Sums.{sum, sum-set, sum-elem, sum_mono}
use linux_programming_interf.Threads.OneTime.{
  Phase, outside, entered, initialised, leaving, State, state_of, Step, lock, initialise, mark,
  skip, unlock, initial,
}

abbrev pub inside_1 : Phase → ℕ
inside_1 (outside k) = 0
inside_1 (entered k) = 1
inside_1 (initialised k) = 1
inside_1 (leaving k) = 1

abbrev pub initialised_1 : Phase → ℕ
initialised_1 (outside k) = 0
initialised_1 (entered k) = 0
initialised_1 (initialised k) = 1
initialised_1 (leaving k) = 0

abbrev pub leaving_1 : Phase → ℕ
leaving_1 (outside k) = 0
leaving_1 (entered k) = 0
leaving_1 (initialised k) = 0
leaving_1 (leaving k) = 1

abbrev pub as_number : Bool → ℕ
as_number true = 1
as_number false = 0

-- The mutex is locked by the one thread inside; `init` was called as often as `called` and the threads
-- that have called it and not said so tell; a thread leaves, or has returned, only with `called` set.
abbrev pub Inv : State → Type 0
Inv (state_of ts locked called inits returned) =
    (sum inside_1 ts ≡ as_number locked)
    × (inits ≡ as_number called + sum initialised_1 ts)
    × ((called ≡ false) ⊎ (sum initialised_1 ts ≡ 0))
    × ((called ≡ true) ⊎ (sum leaving_1 ts + returned ≡ 0))

as_number_bound : (b : Bool) → as_number b ≤ 1
as_number_bound true = omega arith
as_number_bound false = omega arith

initialised_in : (p : Phase) → initialised_1 p ≤ inside_1 p
initialised_in (outside k) = omega arith
initialised_in (entered k) = omega arith
initialised_in (initialised k) = omega arith
initialised_in (leaving k) = omega arith

-- What a step of one thread does to the three counts, and what they are bound by.
abbrev Counts : List Phase → List Phase → Phase → Phase → Type 0
Counts ts us p v =
    (sum inside_1 us + inside_1 p ≡ sum inside_1 ts + inside_1 v)
    × (sum initialised_1 us + initialised_1 p ≡ sum initialised_1 ts + initialised_1 v)
    × (sum leaving_1 us + leaving_1 p ≡ sum leaving_1 ts + leaving_1 v)
    × (initialised_1 p ≤ sum initialised_1 ts)
    × (leaving_1 p ≤ sum leaving_1 ts)
    × (sum initialised_1 ts ≤ sum inside_1 ts)

set-Counts :
    (ts : List Phase) (idx : ℕ) (p v : Phase)
    → get_elem? ts idx ≡ some p
    → Counts ts (set ts idx v) p v
set-Counts ts idx p v at = (
  sum-set inside_1 ts idx p v at,
  sum-set initialised_1 ts idx p v at,
  sum-set leaving_1 ts idx p v at,
  sum-elem initialised_1 ts idx p at,
  sum-elem leaving_1 ts idx p at,
  sum_mono initialised_1 inside_1 ts initialised_in,
)

Step-Inv : (s t : State) → Step s t → Inv s → Inv t
Step-Inv _ _ (lock {ts = ts} {called = called} idx calls at) (i, n, c, l) =
    let (e, f, g, h, k, m) = set-Counts ts idx (outside (suc calls)) (entered calls) at in
    (omega (arith, i, e), omega (arith, n, f), ground (arith, c, f), ground (arith, l, g))
Step-Inv _ _ (initialise {ts = ts} idx calls at) (i, n, c, l) =
    let (e, f, g, h, k, m) = set-Counts ts idx (entered calls) (initialised calls) at in
    (omega (arith, i, e), omega (arith, n, f), inl refl, ground (arith, l, g))
Step-Inv _ _ (mark {ts = ts} {locked = locked} {called = called} idx calls at) (i, n, c, l) =
    let (e, f, g, h, k, m) = set-Counts ts idx (initialised calls) (leaving calls) at in
    let one = as_number_bound locked in
    let none_left : sum initialised_1 (set ts idx (leaving calls)) ≡ 0 =
      omega (arith, f, h, m, i, one) in
    let unset : called ≡ false = ground (arith, c, h) in
    (omega (arith, i, e), ground (arith, n, unset, f, none_left), inr none_left, inl refl)
Step-Inv _ _ (skip {ts = ts} idx calls at) (i, n, c, l) =
    let (e, f, g, h, k, m) = set-Counts ts idx (entered calls) (leaving calls) at in
    (omega (arith, i, e), omega (arith, n, f), ground (arith, c, f), inl refl)
Step-Inv _ _ (unlock {ts = ts} {locked = locked} {called = called} idx calls at) (i, n, c, l) =
    let (e, f, g, h, k, m) = set-Counts ts idx (leaving calls) (outside calls) at in
    let one = as_number_bound locked in
    (omega (arith, i, e, one), omega (arith, n, f), ground (arith, c, f), ground (arith, l, k))

sum-outside :
    (f : Phase → ℕ) (calls : List ℕ) → ((k : ℕ) → f (outside k) ≡ 0) → sum f (map outside calls) ≡ 0
sum-outside f [] h = refl
sum-outside f (k ∷ ks) h = omega (arith, h k, sum-outside f ks h)

initial-Inv : (calls : List ℕ) → Inv (initial calls)
initial-Inv calls = (
  sum-outside inside_1 calls (λ k. refl),
  (let e = sum-outside initialised_1 calls (λ k. refl) in omega (arith, e)),
  inl refl,
  inr (let e = sum-outside leaving_1 calls (λ k. refl) in omega (arith, e)),
)

pub reached-Inv : (calls : List ℕ) (s : State) → Run Step (initial calls) s → Inv s
reached-Inv calls s run =
    Run-keeps Step Inv (λ t u h step. Step-Inv t u step h) (initial calls) s (initial-Inv calls) run

-- one_time_init, called by any number of threads any number of times, in every interleaving: `init` is
-- called at most once; and where a call has returned, `init` was called once and no thread is
-- between that call and the assignment to `called`.
pub reached-Once :
    (calls : List ℕ) (ts : List Phase) (locked called : Bool) (inits returned : ℕ)
    → Run Step (initial calls) (state_of ts locked called inits returned)
    → (inits ≤ 1) × ((returned ≡ 0) ⊎ ((inits ≡ 1) × (called ≡ true) × (sum initialised_1 ts ≡ 0)))
reached-Once calls ts locked called inits returned run =
    let (i, n, c, l) = reached-Inv calls _ run in
    let m = sum_mono initialised_1 inside_1 ts initialised_in in
    let one = as_number_bound locked in
    (ground (arith, i, n, c, m, one), ground (arith, i, n, c, l))
