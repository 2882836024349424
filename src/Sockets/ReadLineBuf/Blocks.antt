-- ===== src/Sockets/ReadLineBuf/Blocks.antt =====
-- The way through the unread characters: what is kept of them in the caller's buffer.
use mathlib.Core.List.{append-nil}
use linux_programming_interf.Common.{
  ℕ, zero, suc, ◌+◌, ◌≤◌, ◌<◌, ◌≡◌, ◌≢◌, inl, inr, refl, sym, ap, ◌∙◌, min, false, Option, none,
  some, List, [], ◌∷◌, ◌++◌, ltb, ◌==◌, arith, Bool-cases, length, length-append, length-drop, take,
  drop, drop-drop, regroup,
}
use linux_programming_interf.Common.Memory.{store-append}
use linux_programming_interf.Sockets.ReadLineBuf.{
  Taken, newline, used_up, overrun, put, after_put, take_line,
}

-- No newline.
abbrev pub Inside : List ℕ → Type 0
Inside [] = Unit
Inside (c ∷ cs) = (c ≢ b'\n') × Inside cs

take-all : (n : ℕ) (xs : List ℕ) → length xs ≤ n → take n xs ≡ xs
take-all zero [] h = refl
take-all zero (x ∷ xs) h = elim h [ ]
take-all (suc n) [] h = refl
take-all (suc n) (x ∷ xs) h = ap (λ ys. x ∷ ys) (take-all n xs (omega (arith, h)))

take-append : (n : ℕ) (xs ys : List ℕ) → n ≤ length xs → take n (xs ++ ys) ≡ take n xs
take-append zero xs ys h = refl
take-append (suc n) [] ys h = elim h [ ]
take-append (suc n) (x ∷ xs) ys h = ap (λ zs. x ∷ zs) (take-append n xs ys (omega (arith, h)))

-- `cnt` and the buffer, for the part of the line so far.
abbrev pub Held : ℕ → List ℕ → List ℕ → ℕ → List ℕ → Type 0
Held n buffer line cnt mem = (cnt ≡ min n (length line)) × (mem ≡ take n line ++ drop cnt buffer)

abbrev HeldPair : ℕ → List ℕ → List ℕ → Option (ℕ × List ℕ) → Type 0
HeldPair n buffer line none = ⊥
HeldPair n buffer line (some (cnt, mem)) = Held n buffer line cnt mem

put-room :
    (n c cnt : ℕ) (line tail : List ℕ)
    → cnt ≡ length line
    → cnt < n
    → 0 < length tail
    → put n c cnt (line ++ tail) ≡ some (cnt + 1, (line ++ c ∷ []) ++ drop 1 tail)
unfolding put
put-room n c cnt line [] e less h = elim h [ ]
put-room n c cnt line (y ∷ tail) e less h =
    rw e (ground (arith, store-append line y c tail, regroup line c tail))

put-full : (n c cnt : ℕ) (mem : List ℕ) → ltb cnt n ≡ false → put n c cnt mem ≡ some (cnt, mem)
unfolding put
put-full n c cnt mem full = rw (full, put) refl

put-Held :
    (n c : ℕ) (buffer line : List ℕ) (cnt : ℕ) (mem : List ℕ)
    → n ≤ length buffer
    → Held n buffer line cnt mem
    → HeldPair n buffer (line ++ c ∷ []) (put n c cnt mem)
put-Held n c buffer line cnt mem room (e, e') = elim (Bool-cases (ltb cnt n)) [
  | inl more ↦
      let less : cnt < n = ground (arith, more) in
      let len : cnt ≡ length line = omega (arith, e, less) in
      let longer : length (line ++ c ∷ []) ≡ length line + 1 = length-append line (c ∷ []) in
      let shape : mem ≡ line ++ drop cnt buffer =
        e' ∙ ap (λ ys. ys ++ drop cnt buffer) (take-all n line (omega (arith, len, less))) in
      let result : put n c cnt mem ≡ some (cnt + 1, (line ++ c ∷ []) ++ drop 1 (drop cnt buffer)) =
        ap (λ m. put n c cnt m) shape
        ∙ put-room n c cnt line (drop cnt buffer) len less
            (omega (arith, length-drop cnt buffer, less, room)) in
      rw result (
        omega (arith, longer, len, less),
        ap (λ ys. ys ++ drop 1 (drop cnt buffer))
              (sym (take-all n (line ++ c ∷ []) (omega (arith, longer, len, less))))
            ∙ ap (λ ys. take n (line ++ c ∷ []) ++ ys) (drop-drop 1 cnt buffer),
      )
  | inr full ↦
      let longer : length (line ++ c ∷ []) ≡ length line + 1 = length-append line (c ∷ []) in
      let high : n ≤ cnt = ground (arith, full) in
      rw (put-full n c cnt mem full) (
        omega (arith, longer, e, high),
        e'
            ∙ ap (λ ys. ys ++ drop cnt buffer)
                (sym (take-append n line (c ∷ []) (omega (arith, e, high)))),
      )
]

-- What the unread characters give to a line of which `line` was read before.
abbrev pub TakenOk : ℕ → List ℕ → List ℕ → List ℕ → Taken → Type 0
TakenOk n buffer line unread (newline cnt mem rest) =
    (cs : List ℕ) × Inside cs
    × (cs ++ b'\n' ∷ rest ≡ unread)
    × Held n buffer (line ++ (cs ++ b'\n' ∷ [])) cnt mem
TakenOk n buffer line unread (used_up cnt mem) =
    Inside unread × Held n buffer (line ++ unread) cnt mem
TakenOk n buffer line unread overrun = ⊥

TakenOk-cons :
    (n : ℕ) (buffer line : List ℕ) (c : ℕ) (cs : List ℕ) (t : Taken)
    → c ≢ b'\n'
    → TakenOk n buffer (line ++ c ∷ []) cs t
    → TakenOk n buffer line (c ∷ cs) t
TakenOk-cons n buffer line c cs (newline cnt mem rest) other (front, inside, e, held) = (
  c ∷ front,
  (other, inside),
  ap (λ ys. c ∷ ys) e,
  rw (regroup line c (front ++ b'\n' ∷ [])) held,
)
TakenOk-cons n buffer line c cs (used_up cnt mem) other (inside, held) =
    ((other, inside), rw (regroup line c cs) held)
TakenOk-cons n buffer line c cs overrun other h = h

after_put-TakenOk :
    (n : ℕ) (buffer line : List ℕ) (c : ℕ) (cs : List ℕ) (next : ℕ → List ℕ → Taken)
    (o : Option (ℕ × List ℕ))
    → HeldPair n buffer (line ++ c ∷ []) o
    → ((k : ℕ) (m : List ℕ)
        → Held n buffer (line ++ c ∷ []) k m
        → TakenOk n buffer (line ++ c ∷ []) cs (next k m))
    → TakenOk n buffer line (c ∷ cs) (after_put c cs next o)
after_put-TakenOk n buffer line c cs next none h ih = elim h [ ]
after_put-TakenOk n buffer line c cs next (some (cnt, mem)) h ih = elim (Bool-cases (c == b'\n')) [
  | inl ends ↦
      let same : b'\n' ≡ c = ground (arith, ends) in
      rw ends ([], tt, ap (λ x. x ∷ cs) same, rw same h)
  | inr inside ↦ rw inside (
      TakenOk-cons n buffer line c cs (next cnt mem) (λ e. ground (arith, inside, e))
        (ih cnt mem h))
]

pub take_line-TakenOk :
    (n : ℕ) (buffer : List ℕ) (unread line : List ℕ) (cnt : ℕ) (mem : List ℕ)
    → n ≤ length buffer
    → Held n buffer line cnt mem
    → TakenOk n buffer line unread (take_line n unread cnt mem)
unfolding take_line
take_line-TakenOk n buffer [] line cnt mem room h = (tt, rw (append-nil line) h)
take_line-TakenOk n buffer (c ∷ cs) line cnt mem room h =
    after_put-TakenOk n buffer line c cs (λ k m. take_line n cs k m) (put n c cnt mem)
      (put-Held n c buffer line cnt mem room h)
      (λ k m h'. take_line-TakenOk n buffer cs (line ++ c ∷ []) k m room h')
