-- ===== src/Tail/Lines.antt =====
-- What is printed, against the lines of the file.
use mathlib.Core.List.{reverse, reverse-reverse, append_assoc, append-nil}
use mathlib.Core.Path.{subst}
use native.Mathlib.Nat.{suc-mul}
use linux_programming_interf.Common.{
  ℕ, zero, suc, ◌-◌, ◌*◌, ◌≤◌, ◌<◌, ◌≡◌, ◌≢◌, refl, sym, ap, ◌∙◌, false, some, List, [], ◌∷◌, ◌++◌,
  ◌⊎◌, inl, inr, arith, Bool-cases, ◌==◌, length, take, drop, length-append, length-drop,
  take-append-drop, drop-nil, length-take,
}
use linux_programming_interf.Common.Text.{Lacks, Lacks-split, until_null-Lacks}
use linux_programming_interf.Tail.{
  Scan, stopped, read_pos, read_buf, TailEnd, prints, overruns, underruns, is_nil, from_pos,
  after_scan, tail_loop, max_buffers_cnt, all_printed, output, tail,
}
use linux_programming_interf.Tail.Scanned.{
  lines_of, AreLast, concat, Flagged, Scanned, stops, passes, scan-Scanned, drop-length-append,
  empty-length,
}

-- The loop prints the last lines.
abbrev PrintsLast : ℕ → List ℕ → TailEnd → Type 0
PrintsLast n file (prints out) = AreLast n file (concat out)
PrintsLast n file overruns = ⊥
PrintsLast n file underruns = ⊥

-- The buffers filled so far: none, or some bytes.
abbrev Filled : List (List ℕ) → Type 0
Filled buffers = (buffers ≡ []) ⊎ (concat buffers ≢ [])

Filled-Flagged :
    (buffers : List (List ℕ)) → Filled buffers → Flagged (is_nil buffers) (concat buffers)
Filled-Flagged [] h = inl (refl, refl)
Filled-Flagged (b ∷ bs) (inl e) = absurd (let no : ⊥ = cc in no)
Filled-Flagged (b ∷ bs) (inr h) = inr (refl, h)

drop-split :
    (p : ℕ) (xs ys buffer : List ℕ) → buffer ≡ xs ++ ys → p ≡ length xs → drop p buffer ≡ ys
drop-split p xs ys buffer split e = rw (split, e) (drop-length-append xs ys)

-- What is printed from the place where the scan stopped.
from_pos-concat :
    (p : ℕ) (buffer xs s : List ℕ) (buffers : List (List ℕ))
    → buffer ≡ xs ++ s
    → p ≡ length xs
    → (s ++ concat buffers) ≢ []
    → (out : List (List ℕ)) × (from_pos p buffer buffers ≡ prints out)
      × (concat out ≡ s ++ concat buffers)
from_pos-concat p buffer xs s [] split e more =
    let len = ap length split ∙ length-append xs s in
    let out = drop-split p xs s buffer split e in
    elim (Bool-cases (p == length buffer)) [
      | inl hit ↦
          let nothing : length s ≡ 0 = ground (arith, len, e, hit) in
          absurd (more (ap (λ r. r ++ []) (empty-length s nothing)))
      | inr miss ↦ (drop p buffer ∷ [], rw miss refl, ap (λ r. r ++ []) out)
    ]
from_pos-concat p buffer xs s (b ∷ bs) split e more =
    let len = ap length split ∙ length-append xs s in
    let out = drop-split p xs s buffer split e in
    elim (Bool-cases (p == length buffer)) [
      | inl hit ↦
          let nothing : length s ≡ 0 = ground (arith, len, e, hit) in
          (b ∷ bs, rw hit refl, ap (λ r. r ++ concat (b ∷ bs)) (sym (empty-length s nothing)))
      | inr miss ↦ (drop p buffer ∷ b ∷ bs, rw miss refl, ap (λ r. r ++ concat (b ∷ bs)) out)
    ]

PrintsLast-from_pos :
    (n p : ℕ) (file front buffer : List ℕ) (buffers : List (List ℕ))
    → file ≡ front ++ (buffer ++ concat buffers)
    → Scanned n buffer (concat buffers) (stopped p)
    → PrintsLast n file (from_pos p buffer buffers)
PrintsLast-from_pos n p file front buffer buffers whole (stops p' xs s e split count more) =
    let line = xs ++ b'\n' ∷ [] in
    let (out, printed, text) = from_pos-concat p buffer line s buffers split e more in
    let file_split : file ≡ (front ++ line) ++ concat out =
      whole
      ∙ ap (λ r. front ++ (r ++ concat buffers)) split
      ∙ ap (λ r. front ++ r) (append_assoc line s (concat buffers) ∙ ap (λ r. line ++ r) (sym text))
      ∙ sym (append_assoc front line (concat out)) in
    rw printed (
      front ++ line,
      file_split,
      inr (
        (front ++ xs, sym (append_assoc front xs (b'\n' ∷ []))),
        (λ none_out. more (sym text ∙ none_out)),
        ap lines_of text ∙ count,
      ),
    )

take-length-append : (xs ys : List ℕ) → take (length xs) (xs ++ ys) ≡ xs
take-length-append [] ys = refl
take-length-append (x ∷ xs) ys = ap (λ r. x ∷ r) (take-length-append xs ys)

-- What `readBuf` reads of the part of the file that is left.
read_buf-drop :
    (front rest : List ℕ) (pos : ℕ)
    → take (length front - pos) (drop pos (front ++ rest)) ≡ drop pos front
read_buf-drop [] rest pos = let e : 0 - pos ≡ 0 = omega arith in rw e (sym (drop-nil ℕ pos))
read_buf-drop (x ∷ xs) rest zero =
    let e : suc (length xs) - 0 ≡ suc (length xs) = omega arith in
    rw e (take-length-append (x ∷ xs) rest)
read_buf-drop (x ∷ xs) rest (suc pos) =
    let e : suc (length xs) - suc pos ≡ length xs - pos = omega arith in
    rw e (read_buf-drop xs rest pos)

nonempty-front : (xs ys : List ℕ) → 0 < length xs → (xs ++ ys) ≢ []
nonempty-front [] ys h = absurd (let no : ⊥ = omega (arith, h) in no)
nonempty-front (x ∷ xs) ys h = (λ e. cc)

take-all : (xs : List ℕ) (k : ℕ) → k ≤ length xs → length (take k xs) ≡ k
take-all xs k h = omega (arith, length-take k xs, h)

-- The room in the free buffers, after one more is filled.
room_left : (left bs fp : ℕ) → fp ≤ suc left * bs → fp - bs ≤ left * bs
room_left left bs fp h = omega (arith, h, suc-mul left bs)

free_left : (left bs pos : ℕ) → (pos == 0) ≡ false → pos ≤ left * bs → 0 < left
free_left zero bs pos h k = ground (arith, h, k)
free_left (suc left) bs pos h k = omega arith

module _ (n : ℕ) (file : List ℕ) (buf_size : ℕ) (some_size : 0 < buf_size) where
  -- One round, from what the scan of its buffer gives; `again` is what the next round does.
  PrintsLast-round :
      (left pos : ℕ) (buffer front : List ℕ) (buffers : List (List ℕ)) (sc : Scan)
      → file ≡ front ++ (buffer ++ concat buffers)
      → pos ≡ length front
      → Scanned n buffer (concat buffers) sc
      → ((lines : ℕ)
          → lines ≡ lines_of (buffer ++ concat buffers)
          → lines ≤ n
          → (pos == 0) ≡ false
          → PrintsLast n file (tail_loop left n file buf_size pos (buffer ∷ buffers) lines))
      → PrintsLast n file (
          after_scan pos buffer buffers
            (λ lines. tail_loop left n file buf_size pos (buffer ∷ buffers) lines)
            sc)
  PrintsLast-round left pos buffer front buffers sc whole at (stops p xs s e split count more)
        again =
      PrintsLast-from_pos n p file front buffer buffers whole (stops p xs s e split count more)
  PrintsLast-round left pos buffer front buffers sc whole at (passes lines count fits) again =
      elim (Bool-cases (pos == 0)) [
        | inr inside ↦ rw inside (again lines count fits inside)
        | inl begun ↦
            let nothing : length front ≡ 0 = ground (arith, at, begun) in
            rw begun (
              [],
              whole ∙ ap (λ r. r ++ (buffer ++ concat buffers)) (empty-length front nothing),
              inl (refl, omega (arith, count, fits)),
            )
      ]

  tail_loop-PrintsLast :
      (left file_pos : ℕ) (buffers : List (List ℕ)) (lines : ℕ) (front : List ℕ)
      → file ≡ front ++ concat buffers
      → file_pos ≡ length front
      → Filled buffers
      → lines ≡ lines_of (concat buffers)
      → lines ≤ n
      → 0 < left
      → file_pos ≤ left * buf_size
      → PrintsLast n file (tail_loop left n file buf_size file_pos buffers lines)
  unfolding tail_loop read_buf
  tail_loop-PrintsLast zero file_pos buffers lines front whole at filled count fits free room =
      omega (arith, free)
  tail_loop-PrintsLast (suc left) file_pos buffers lines front whole at filled count fits free
        room =
      let pos = read_pos file_pos buf_size in
      let buffer = read_buf file file_pos buf_size in
      let is_buffer : buffer ≡ drop pos front =
        ap (λ f. take (file_pos - pos) (drop pos f)) whole
        ∙ ap (λ k. take (k - pos) (drop pos (front ++ concat buffers))) at
        ∙ read_buf-drop front (concat buffers) pos in
      let whole' : file ≡ take pos front ++ (buffer ++ concat buffers) =
        whole
        ∙ ap (λ f. f ++ concat buffers) (sym (take-append-drop pos front))
        ∙ append_assoc (take pos front) (drop pos front) (concat buffers)
        ∙ ap (λ b. take pos front ++ (b ++ concat buffers)) (sym is_buffer) in
      let at' : pos ≡ length (take pos front) = sym (take-all front pos (omega (arith, at))) in
      let room' = room_left left buf_size file_pos room in
      let len = ap length is_buffer ∙ length-drop pos front in
      PrintsLast-round left pos buffer (take pos front) buffers _ whole' at'
        (scan-Scanned n (is_nil buffers) buffer (concat buffers) (reverse buffer) [] lines
          (Filled-Flagged buffers filled) (sym (append-nil _ ∙ reverse-reverse buffer)) count fits)
        (λ lines' count' fits' inside.
          tail_loop-PrintsLast left pos (buffer ∷ buffers) lines' (take pos front) whole' at'
            (inr
              (nonempty-front buffer (concat buffers) (ground (arith, len, at, inside, some_size))))
            count' fits' (free_left left buf_size pos inside room') room')

all_printed-concat :
    (bs : List (List ℕ)) → Lacks 0 (concat bs) → all_printed bs ≡ concat bs ++ b'\n' ∷ []
all_printed-concat [] h = refl
all_printed-concat (b ∷ bs) h =
    let (first, others) = Lacks-split 0 b (concat bs) h in
    rw (until_null-Lacks b first, all_printed-concat bs others)
      (sym (append_assoc b (concat bs) (b'\n' ∷ [])))

-- The text of a run that prints the last lines.
PrintsLast-output :
    (n : ℕ) (file : List ℕ) (end : TailEnd)
    → Lacks 0 file
    → PrintsLast n file end
    → (out : List ℕ) × (output end ≡ some (out ++ b'\n' ∷ [])) × AreLast n file out
PrintsLast-output n file (prints bs) printable (before, split, last) =
    let text = (Lacks-split 0 before (concat bs) (subst (Lacks 0) split printable)).1 in
    (concat bs, ap some (all_printed-concat bs text), (before, split, last))
PrintsLast-output n file overruns printable h = absurd h
PrintsLast-output n file underruns printable h = absurd h

-- tail, for a file without null bytes that has at most as many blocks as there are buffers: at least
-- one line being asked for, it prints the last lines of the file, as many as are asked for or all if
-- there are fewer, and a newline. A newline that is the last byte of the file begins no line.
pub tail-AreLast :
    (n : ℕ) (file : List ℕ) (buf_size : ℕ)
    → 0 < n
    → 0 < buf_size
    → length file ≤ max_buffers_cnt * buf_size
    → Lacks 0 file
    → (out : List ℕ) × (tail n file buf_size ≡ some (out ++ b'\n' ∷ [])) × AreLast n file out
unfolding tail
tail-AreLast n file buf_size asked some_size room printable = PrintsLast-output n file _ printable (
    tail_loop-PrintsLast n file buf_size some_size max_buffers_cnt (length file) [] 1 file
      (sym (append-nil file)) refl (inl refl) refl (omega (arith, asked)) (omega arith) room)
