-- ===== src/Execlp/Arguments.antt =====
-- The two argument vectors that `execlp` builds.
use mathlib.Core.List.{append-nil}
use linux_programming_interf.Common.{
  regroup, ◌⊎◌, ℕ, zero, suc, ◌+◌, ◌≤◌, ◌<◌, ◌≡◌, refl, ap, sym, ◌∙◌, Bool, true, false, Option,
  none, some, List, [], ◌∷◌, ◌++◌, inl, inr, arith, leb, Bool-cases, Option-cases, length,
  length-append, length-replicate,
}
use linux_programming_interf.Common.Memory.{store}
use linux_programming_interf.Common.Text.{CString}
use linux_programming_interf.Execlp.{
  collected, overrun, collect, build_argv, copy_argv, slots, sh_vector,
}

-- A write at the end of an array, or later, faults.
store-out {ℓ} : {A : Type ℓ} (mem : List A) (i : ℕ) (v : A) → length mem ≤ i → store mem i v ≡ none
unfolding store
store-out [] i v h = refl
store-out (x ∷ mem) zero v h = elim h [ ]
store-out (x ∷ mem) (suc i) v h = rw (store-out mem i v (omega (arith, h)))

length-store {ℓ} :
    {A : Type ℓ} (mem mem' : List A) (i : ℕ) (v : A)
    → store mem i v ≡ some mem'
    → length mem' ≡ length mem
unfolding store
length-store [] mem' i v h = cc (h)
length-store (x ∷ mem) mem' zero v h = let same : v ∷ mem ≡ mem' = cc (h) in ap length (sym same)
length-store (x ∷ mem) mem' (suc i) v h = elim (Option-cases (store mem i v)) [
  | inl out ↦ cc (rw (out, store) at h)
  | inr (m, inside) ↦
      let same : x ∷ m ≡ mem' = cc (rw (inside, store) at h) in
      ap length (sym same) ∙ ap suc (length-store mem m i v inside)
]

-- The loop writes one slot too many, however many slots it has passed.
copy_argv-overruns :
    (argv sh_argv : List (Option CString)) (j : ℕ)
    → length sh_argv < j + length argv + 1
    → 0 < length argv
    → copy_argv argv j sh_argv ≡ none
unfolding copy_argv
copy_argv-overruns [] sh_argv j h pos = elim pos [ ]
copy_argv-overruns (a ∷ []) sh_argv j h pos =
    rw (store-out sh_argv (j + 1) a (omega (arith, h)), copy_argv) refl
copy_argv-overruns (a ∷ b ∷ argv) sh_argv j h pos = elim (Option-cases (store sh_argv (j + 1) a)) [
  | inl out ↦ rw (out, copy_argv) refl
  | inr (sh_argv', inside) ↦
      rw (inside, copy_argv)
        (copy_argv-overruns (b ∷ argv) sh_argv' (j + 1)
          (omega (arith, h, length-store sh_argv sh_argv' (j + 1) a inside)) (omega arith))
]

length-slots : (args : List CString) → length (slots args) ≡ length args + 2
length-slots [] = omega arith
length-slots (a ∷ args) = omega (arith, length-slots args)

-- execShScript: whatever the arguments are, the copy writes past the end of `shArgv`.
pub sh_vector-overruns : (args : List CString) → sh_vector args ≡ none
unfolding sh_vector
sh_vector-overruns args =
    copy_argv-overruns (slots args) _ 0
      (omega
        (arith, length-slots args, length-replicate {A = Option CString} (length args + 1) none))
      (omega (arith, length-slots args))

-- Up to 98 arguments fit, and with room left realloc() is not called.
collect-fits :
    (more_memory : Bool) (rest args : List CString)
    → length args + length rest ≤ 98
    → collect more_memory rest args (record { argv_size = 100; room = 100 })
      ≡ collected (args ++ rest)
unfolding collect
collect-fits more_memory [] args h =
    let small : leb 100 (length args + 1) ≡ false = ground (arith, h) in
    let inside : leb 100 (length args) ≡ false = ground (arith, h) in
    rw (small, inside, append-nil) refl
collect-fits more_memory (x ∷ xs) args h =
    let small : leb 100 (length args + 1) ≡ false = ground (arith, h) in
    let inside : leb 100 (length args) ≡ false = ground (arith, h) in
    rw (small, inside, regroup args x xs)
      (collect-fits more_memory xs (args ++ x ∷ []) (omega (arith, h, length-append args (x ∷ []))))

-- From the 99th argument on, the resized vector is written past its end.
collect-overruns :
    (rest args : List CString)
    → length args ≤ 99
    → 99 ≤ length args + length rest
    → collect true rest args (record { argv_size = 100; room = 100 }) ≡ overrun
unfolding collect
collect-overruns [] args h k =
    let full : leb 100 (length args + 1) ≡ true = ground (arith, h, k) in
    let outside : leb 1 (length args) ≡ true = ground (arith, h, k) in rw (full, outside) refl
collect-overruns (x ∷ xs) args h k = elim (Bool-cases (leb 100 (length args + 1))) [
  | inl full ↦
      let outside : leb 1 (length args) ≡ true = ground (arith, full) in rw (full, outside) refl
  | inr small ↦
      let inside : leb 100 (length args) ≡ false = ground (arith, small) in
      rw (small, inside)
        (collect-overruns xs (args ++ x ∷ []) (ground (arith, small, length-append args (x ∷ [])))
          (omega (arith, k, length-append args (x ∷ []))))
]

-- execlp: an argument list of up to 98 strings is collected whole and in order, and one of 99 or more
-- writes past the end of the resized vector, though realloc() succeeds.
pub build_argv-bounds :
    (args : List CString)
    → ((length args ≤ 98) × (build_argv true args ≡ collected args))
      ⊎ ((99 ≤ length args) × (build_argv true args ≡ overrun))
unfolding build_argv
build_argv-bounds [] = inl (omega arith, refl)
build_argv-bounds (arg ∷ rest) = elim (Bool-cases (leb (length rest) 97)) [
  | inl few ↦
      let fits : length rest ≤ 97 = ground (arith, few) in
      inl (omega (arith, fits), collect-fits true rest (arg ∷ []) (omega (arith, fits)))
  | inr many ↦
      let over : 98 ≤ length rest = ground (arith, many) in
      inr
        (omega (arith, over), collect-overruns rest (arg ∷ []) (omega arith) (omega (arith, over)))
]
