-- ===== src/Tail/Scanned.antt =====
-- What a scan of a buffer finds.
use mathlib.Core.List.{reverse, reverse-cons, append_assoc, append-nil}
use linux_programming_interf.Common.{
  ℕ, suc, ◌+◌, ◌≤◌, ◌≡◌, ◌≢◌, refl, sym, ap, ◌∙◌, Bool, true, false, ◌&&◌, List, [], ◌∷◌, ◌++◌, ◌⊎◌,
  inl, inr, arith, Bool-cases, ◌==◌, if◌then◌else◌, length, drop, length-append,
}
use linux_programming_interf.Tail.{Scan, stopped, passed, scan}

-- The newlines that another byte follows.
abbrev pub inner : List ℕ → ℕ
inner [] = 0
inner (x ∷ []) = 0
inner (x ∷ y ∷ ys) = (if x == b'\n' then 1 else 0) + inner (y ∷ ys)

abbrev pub lines_of : List ℕ → ℕ
lines_of xs = 1 + inner xs

-- A text whose last byte is a newline.
abbrev pub EndsLine : List ℕ → Type 0
EndsLine xs = (front : List ℕ) × (xs ≡ front ++ b'\n' ∷ [])

-- The last `n` lines of a file, which begin behind a newline and are not empty; or all of them, where
-- there are no more.
abbrev pub AreLast : ℕ → List ℕ → List ℕ → Type 0
AreLast n file out =
    (before : List ℕ) × (file ≡ before ++ out)
    × (((before ≡ []) × (lines_of out ≤ n)) ⊎ (EndsLine before × (out ≢ []) × (lines_of out ≡ n)))

abbrev pub concat : List (List ℕ) → List ℕ
concat [] = []
concat (b ∷ bs) = b ++ concat bs

length-reverse : (xs : List ℕ) → length (reverse xs) ≡ length xs
length-reverse [] = refl
length-reverse (x ∷ xs) =
    let h = length-append (reverse xs) (x ∷ []) in
    let ih = length-reverse xs in
    ap length (reverse-cons x xs)
    ∙ (let e : length (reverse xs ++ x ∷ []) ≡ suc (length xs) = omega (arith, h, ih) in e)

pub drop-length-append : (xs ys : List ℕ) → drop (length xs) (xs ++ ys) ≡ ys
drop-length-append [] ys = refl
drop-length-append (x ∷ xs) ys = drop-length-append xs ys

-- What a scan of the bytes `cs` backwards gives, with `s` behind them in the buffer and `rest` behind that.
pub data Scanned (n : ℕ) (buffer : List ℕ) (rest : List ℕ) : Scan → Type 0 where
  stops :
      (p : ℕ) (front s : List ℕ)
      → p ≡ length (front ++ b'\n' ∷ [])
      → buffer ≡ (front ++ b'\n' ∷ []) ++ s
      → lines_of (s ++ rest) ≡ n
      → (s ++ rest) ≢ []
      → Scanned n buffer rest (stopped p)
  passes :
      (lines : ℕ)
      → lines ≡ lines_of (buffer ++ rest)
      → lines ≤ n
      → Scanned n buffer rest (passed lines)

inner-skip : (c : ℕ) (zs : List ℕ) → (c == b'\n') ≡ false → inner (c ∷ zs) ≡ inner zs
inner-skip c [] h = refl
inner-skip c (z ∷ zs) h = rw h (omega arith)

inner-newline :
    (c : ℕ) (zs : List ℕ) → (c == b'\n') ≡ true → zs ≢ [] → inner (c ∷ zs) ≡ 1 + inner zs
inner-newline c [] h more = absurd (more refl)
inner-newline c (z ∷ zs) h more = rw h refl

-- The flag of the last block, against what stands behind the buffer.
abbrev pub Flagged : Bool → List ℕ → Type 0
Flagged is_last rest = ((is_last ≡ true) × (rest ≡ [])) ⊎ ((is_last ≡ false) × (rest ≢ []))

nonempty-append : (s rest : List ℕ) → rest ≢ [] → (s ++ rest) ≢ []
nonempty-append [] rest h = h
nonempty-append (x ∷ s) rest h = (λ e. cc)

nonempty-length : (s : List ℕ) → length s ≢ 0 → s ≢ []
nonempty-length s h = (λ e. h (ap length e))

pub empty-length : (s : List ℕ) → length s ≡ 0 → s ≡ []
empty-length [] h = refl
empty-length (x ∷ s) h = absurd (let no : ⊥ = omega (arith, h) in no)

-- At a newline, the test for the last byte of the file fails only where something is behind it.
not_last :
    (is_last : Bool) (rest s : List ℕ) (k size : ℕ)
    → Flagged is_last rest
    → size ≡ k + 1 + length s
    → (is_last && (k + 1 == size)) ≡ false
    → (s ++ rest) ≢ []
not_last is_last rest s k size (inr (here, more)) e t = nonempty-append s rest more
not_last is_last rest s k size (inl (here, none_left)) e t =
    let some_left : length s ≢ 0 = ground (arith, here, e, t) in
    rw (none_left, append-nil s) (nonempty-length s some_left)

last_one :
    (is_last : Bool) (rest s : List ℕ) (k size : ℕ)
    → Flagged is_last rest
    → size ≡ k + 1 + length s
    → (is_last && (k + 1 == size)) ≡ true
    → (s ++ rest) ≡ []
last_one is_last rest s k size (inr (here, more)) e t =
    absurd (let no : ⊥ = ground (arith, here, t) in no)
last_one is_last rest s k size (inl (here, none_left)) e t =
    let nothing : length s ≡ 0 = ground (arith, here, e, t) in
    rw (none_left, append-nil s) (empty-length s nothing)

pub scan-Scanned :
    (n : ℕ) (is_last : Bool) (buffer rest cs s : List ℕ) (lines : ℕ)
    → Flagged is_last rest
    → buffer ≡ reverse cs ++ s
    → lines ≡ lines_of (s ++ rest)
    → lines ≤ n
    → Scanned n buffer rest (scan n is_last (length buffer) cs lines)
unfolding scan
scan-Scanned n is_last buffer rest [] s lines flag split count fits =
    passes lines (count ∙ ap (λ b. lines_of (b ++ rest)) (sym split)) fits
scan-Scanned n is_last buffer rest (c ∷ cs) s lines flag split count fits =
    let split' : buffer ≡ reverse cs ++ c ∷ s =
      split ∙ ap (λ r. r ++ s) (reverse-cons c cs) ∙ append_assoc (reverse cs) (c ∷ []) s in
    let len₁ = length-append (reverse cs) (c ∷ s) in
    let len₂ = length-reverse cs in
    let len₃ = ap length split' in
    let size : length buffer ≡ length cs + 1 + length s = omega (arith, len₁, len₂, len₃) in
    elim (Bool-cases (c == b'\n')) [
      | inr no_line ↦
          let e = inner-skip c (s ++ rest) no_line in
          rw no_line (
            scan-Scanned n is_last buffer rest cs (c ∷ s) lines flag split'
              (omega (arith, count, e)) fits)
      | inl line ↦ elim (Bool-cases (is_last && (length cs + 1 == length buffer))) [
        | inl last ↦
            let nothing = last_one is_last rest s (length cs) (length buffer) flag size last in
            let e : lines ≡ lines_of (c ∷ (s ++ rest)) = count ∙ rw nothing refl in
            rw (line, last) (scan-Scanned n is_last buffer rest cs (c ∷ s) lines flag split' e fits)
        | inr inside ↦
            let newline : c ≡ b'\n' = ground (arith, line) in
            let more = not_last is_last rest s (length cs) (length buffer) flag size inside in
            let e = inner-newline c (s ++ rest) line more in
            elim (Bool-cases (lines == n)) [
              | inr below ↦
                  rw (line, inside, below)
                    (scan-Scanned n is_last buffer rest cs (c ∷ s) (lines + 1) flag split'
                      (omega (arith, count, e)) (ground (arith, fits, below)))
              | inl enough ↦
                  rw (line, inside, enough)
                    (stops (length cs + 1) (reverse cs) s
                      (omega (arith, len₂, length-append (reverse cs) (b'\n' ∷ [])))
                      (split'
                        ∙ ap (λ d. reverse cs ++ d ∷ s) newline
                        ∙ sym (append_assoc (reverse cs) (b'\n' ∷ []) s))
                      (ground (arith, count, enough)) more)
            ]
      ]
    ]
