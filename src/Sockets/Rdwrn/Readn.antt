-- ===== src/Sockets/Rdwrn/Readn.antt =====
-- `readn` of book-src/sockets/rdwrn.c, against the reads that it passes.
use mathlib.Core.List.{append_assoc}
use linux_programming_interf.Common.{
  regroup, length-snoc, ℕ, ◌+◌, ◌-◌, ◌≤◌, ◌<◌, ◌≡◌, ◌≢◌, refl, sym, ap, ◌∙◌, some, length-drop,
  drop-drop, List, [], ◌∷◌, ◌++◌, ◌⊎◌, inl, inr, arith, ltb, ◌==◌, Bool-cases, length,
  length-append, drop,
}
use linux_programming_interf.Common.Memory.{store-append}
use linux_programming_interf.Sockets.ReadLine.{eintr}
use linux_programming_interf.Sockets.Rdwrn.{
  ReadReturn, received, read_error, ReadnResult, returned, failed, waiting, fault, copy_in,
  readn_loop, readn,
}

-- read() never delivers more bytes than it was asked for, here `n` and then what is left of it.
abbrev pub Fits : ℕ → List ReadReturn → Type 0
Fits n [] = Unit
Fits n (received xs ∷ rs) = (length xs ≤ n) × Fits (n - length xs) rs
Fits n (read_error e ∷ rs) = Fits n rs

-- All bytes that the reads deliver.
abbrev pub delivered : List ReadReturn → List ℕ
delivered [] = []
delivered (received xs ∷ rs) = xs ++ delivered rs
delivered (read_error e ∷ rs) = delivered rs

-- The reads behind which the loop goes on: some bytes, or an interruption.
abbrev pub Passed : List ReadReturn → Type 0
Passed [] = Unit
Passed (received [] ∷ rs) = ⊥
Passed (received (x ∷ xs) ∷ rs) = Passed rs
Passed (read_error e ∷ rs) = (e ≡ eintr) × Passed rs

-- `rs` is `before`, and `rest` behind it where `n` bytes have come; with fewer, it is `before`, a read
-- of no bytes, and `rest`.
abbrev pub StopsAt : ℕ → ℕ → List ReadReturn → List ReadReturn → List ReadReturn → Type 0
StopsAt n k before rest rs =
    ((k ≡ n) × (rs ≡ before ++ rest)) ⊎ ((k < n) × (rs ≡ before ++ received [] ∷ rest))

-- The result of a call from a state in which `ps` has been read and `tail` is the rest of the buffer.
abbrev pub Outcome : ℕ → List ℕ → List ℕ → List ReadReturn → ReadnResult → Type 0
Outcome n ps tail rs (returned k mem rest) =
    (before : List ReadReturn) × Passed before
    × (mem ≡ ps ++ (delivered before ++ drop (length (delivered before)) tail))
    × (k ≡ length ps + length (delivered before))
    × StopsAt n k before rest rs
Outcome n ps tail rs (failed e) =
    (before : List ReadReturn) × (rest : List ReadReturn) × Passed before
    × (rs ≡ before ++ read_error e ∷ rest)
    × (e ≢ eintr)
    × (length ps + length (delivered before) < n)
Outcome n ps tail rs waiting = Passed rs × (length ps + length (delivered rs) < n)
Outcome n ps tail rs fault = ⊥

copy_in-append :
    (xs ps tail : List ℕ) (i : ℕ)
    → i ≡ length ps
    → length xs ≤ length tail
    → copy_in (ps ++ tail) i xs ≡ some (ps ++ (xs ++ drop (length xs) tail))
unfolding copy_in
copy_in-append [] ps tail i e h = refl
copy_in-append (x ∷ xs) ps [] i e h = elim h [ ]
copy_in-append (x ∷ xs) ps (y ∷ tail) i e h =
    rw (e, copy_in, store-append ps y x tail, regroup ps x tail)
      (copy_in-append xs (ps ++ x ∷ []) tail (i + 1) (length-snoc ps x i e) (omega arith)
        ∙ ap some (sym (regroup ps x (xs ++ drop (length xs) tail))))

StopsAt-later :
    (n k : ℕ) (r : ReadReturn) (before rest rs : List ReadReturn)
    → StopsAt n k before rest rs
    → StopsAt n k (r ∷ before) rest (r ∷ rs)
StopsAt-later n k r before rest rs (inl (e, split)) = inl (e, ap (λ l. r ∷ l) split)
StopsAt-later n k r before rest rs (inr (less, split)) = inr (less, ap (λ l. r ∷ l) split)

-- Two parts copied one behind the other are one.
regrouped :
    (ps xs ys tail : List ℕ)
    → (ps ++ xs) ++ (ys ++ drop (length ys) (drop (length xs) tail))
      ≡ ps ++ ((xs ++ ys) ++ drop (length (xs ++ ys)) tail)
regrouped ps xs ys tail =
    append_assoc ps xs (ys ++ drop (length ys) (drop (length xs) tail))
    ∙ rw (length-append xs ys, drop-drop (length ys) (length xs) tail, append_assoc xs ys _) refl

-- A later outcome, seen from before the bytes `x ∷ xs` were copied.
Outcome-received :
    (n : ℕ) (ps : List ℕ) (x : ℕ) (xs tail : List ℕ) (rs : List ReadReturn) (r : ReadnResult)
    → Outcome n (ps ++ x ∷ xs) (drop (length (x ∷ xs)) tail) rs r
    → Outcome n ps tail (received (x ∷ xs) ∷ rs) r
Outcome-received n ps x xs tail rs (returned k mem rest) (before, passed, e, len, stops) = (
  received (x ∷ xs) ∷ before,
  passed,
  e ∙ regrouped ps (x ∷ xs) (delivered before) tail,
  omega (arith, len, length-append ps (x ∷ xs), length-append xs (delivered before)),
  StopsAt-later n k (received (x ∷ xs)) before rest rs stops,
)
Outcome-received n ps x xs tail rs (failed e) (before, rest, passed, split, other, less) = (
  received (x ∷ xs) ∷ before,
  rest,
  passed,
  ap (λ l. received (x ∷ xs) ∷ l) split,
  other,
  omega (arith, less, length-append ps (x ∷ xs), length-append xs (delivered before)),
)
Outcome-received n ps x xs tail rs waiting (passed, less) =
    (passed, omega (arith, less, length-append ps (x ∷ xs), length-append xs (delivered rs)))
Outcome-received n ps x xs tail rs fault h = h

-- The same for an interruption.
Outcome-interrupted :
    (n : ℕ) (ps tail : List ℕ) (e : ℕ) (rs : List ReadReturn) (r : ReadnResult)
    → e ≡ eintr
    → Outcome n ps tail rs r
    → Outcome n ps tail (read_error e ∷ rs) r
Outcome-interrupted n ps tail e rs (returned k mem rest) again (before, passed, m, len, stops) = (
  read_error e ∷ before,
  (again, passed),
  m,
  len,
  StopsAt-later n k (read_error e) before rest rs stops,
)
Outcome-interrupted n ps tail e rs (failed e') again (before, rest, passed, split, other, less) =
    (read_error e ∷ before, rest, (again, passed), ap (λ l. read_error e ∷ l) split, other, less)
Outcome-interrupted n ps tail e rs waiting again (passed, less) = ((again, passed), less)
Outcome-interrupted n ps tail e rs fault again h = h

-- The loop returns at once with what was read before.
Outcome-returned :
    (n : ℕ) (ps tail : List ℕ) (rs rest : List ReadReturn) (t : ℕ)
    → t ≡ length ps
    → StopsAt n t [] rest rs
    → Outcome n ps tail rs (returned t (ps ++ tail) rest)
Outcome-returned n ps tail rs rest t e stops = ([], tt, refl, omega (arith, e), stops)

Outcome-read :
    (n : ℕ) (ps : List ℕ) (x : ℕ) (xs tail : List ℕ) (rs : List ReadReturn)
    (f : List ℕ → ReadnResult)
    → Outcome n
        (ps ++ x ∷ xs)
        (drop (length (x ∷ xs)) tail)
        rs
        (f ((ps ++ x ∷ xs) ++ drop (length (x ∷ xs)) tail))
    → Outcome n ps tail (received (x ∷ xs) ∷ rs) (f (ps ++ (x ∷ xs ++ drop (length (x ∷ xs)) tail)))
Outcome-read n ps x xs tail rs f h =
    rw (sym (append_assoc ps (x ∷ xs) (drop (length (x ∷ xs)) tail)))
      (Outcome-received n ps x xs tail rs _ h)

Fits-sub : (n t k : ℕ) (rs : List ReadReturn) → Fits (n - t - k) rs → Fits (n - (t + k)) rs
Fits-sub n t k rs h = let e : n - (t + k) ≡ n - t - k = omega arith in rw e h

readn_loop-Outcome :
    (n : ℕ) (rs : List ReadReturn) (ps tail : List ℕ) (t : ℕ)
    → t ≡ length ps
    → t ≤ n
    → n - t ≤ length tail
    → Fits (n - t) rs
    → Outcome n ps tail rs (readn_loop n rs t (ps ++ tail))
unfolding readn_loop
readn_loop-Outcome n [] ps tail t e le room fits = elim (Bool-cases (ltb t n)) [
  | inl more ↦ rw (more, readn_loop) (tt, let less : t < n = ground arith in omega arith)
  | inr done ↦
      rw (done, readn_loop) (Outcome-returned n ps tail [] [] t e (inl (ground arith, refl)))
]
readn_loop-Outcome n (read_error r ∷ rs) ps tail t e le room fits = elim (Bool-cases (ltb t n)) [
  | inl more ↦ elim (Bool-cases (r == eintr)) [
    | inl again ↦
        rw (more, again, readn_loop)
          (Outcome-interrupted n ps tail r rs _ (ground (arith, again))
            (readn_loop-Outcome n rs ps tail t e le room fits))
    | inr other ↦
        let less : t < n = ground arith in
        rw (more, other, readn_loop)
          ([], rs, tt, refl, (λ same. ground (arith, same, other)), omega (arith, less, e))
  ]
  | inr done ↦
      rw (done, readn_loop)
        (Outcome-returned n ps tail (read_error r ∷ rs) (read_error r ∷ rs) t e
          (inl (ground arith, refl)))
]
readn_loop-Outcome n (received [] ∷ rs) ps tail t e le room fits = elim (Bool-cases (ltb t n)) [
  | inl more ↦
      rw (more, readn_loop)
        (Outcome-returned n ps tail (received [] ∷ rs) rs t e (inr (ground arith, refl)))
  | inr done ↦
      rw (done, readn_loop)
        (Outcome-returned n ps tail (received [] ∷ rs) (received [] ∷ rs) t e
          (inl (ground arith, refl)))
]
readn_loop-Outcome n (received (x ∷ xs) ∷ rs) ps tail t e le room (fit, fits) =
    elim (Bool-cases (ltb t n)) [
      | inl more ↦
          rw (more, readn_loop, copy_in-append (x ∷ xs) ps tail t e (omega (arith, fit, room)))
            (Outcome-read n ps x xs tail rs (λ m. readn_loop n rs (t + length (x ∷ xs)) m)
              (readn_loop-Outcome n rs (ps ++ x ∷ xs) (drop (length (x ∷ xs)) tail)
                (t + length (x ∷ xs)) (omega (arith, length-append ps (x ∷ xs))) (ground arith)
                (omega (arith, length-drop (length (x ∷ xs)) tail))
                (Fits-sub n t (length (x ∷ xs)) rs fits)))
      | inr done ↦
          rw (done, readn_loop)
            (Outcome-returned n ps tail (received (x ∷ xs) ∷ rs) (received (x ∷ xs) ∷ rs) t e
              (inl (ground arith, refl)))
    ]

-- readn: for reads that deliver no more than they are asked for and a buffer of at least n bytes,
-- the call never writes past the buffer. It passes reads of some bytes and interruptions. A result k
-- is the number of their bytes, which are at the front of the buffer in order, with the rest of the
-- buffer unchanged; k is n, or less only where a read of 0 bytes, the end of the file, comes next.
-- An error other than EINTR, before n bytes have come, ends the call with that error. It waits only
-- while fewer than n bytes have come and all reads have been passed.
pub readn-Outcome :
    (n : ℕ) (mem : List ℕ) (rs : List ReadReturn)
    → n ≤ length mem
    → Fits n rs
    → Outcome n [] mem rs (readn n mem rs)
unfolding readn
readn-Outcome n mem rs room fits =
    readn_loop-Outcome n rs [] mem 0 refl (omega arith) (omega arith)
      (let same : n - 0 ≡ n = omega arith in rw same fits)
