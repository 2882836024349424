-- ===== src/Sockets/Rdwrn/Writen.antt =====
-- `writen` of book-src/sockets/rdwrn.c, against the writes that it makes.
use linux_programming_interf.Common.{
  ℕ, zero, suc, ◌+◌, ◌-◌, ◌≤◌, ◌<◌, ◌≡◌, refl, ap, ◌∙◌, true, false, List, [], ◌∷◌, ◌++◌, inl, inr,
  arith, ltb, ◌==◌, Bool-cases, take, drop, drop-drop, take-take,
}
use linux_programming_interf.Sockets.ReadLine.{eintr}
use linux_programming_interf.Sockets.Rdwrn.{
  WriteReturn, wrote, write_error, WritenResult, sent, stopped, blocked, writen_loop, writen,
}

-- write() never takes more bytes than it was given, here `n` and then what is left of them.
abbrev pub Accepts : ℕ → List WriteReturn → Type 0
Accepts n [] = Unit
Accepts n (wrote k ∷ ws) = (k ≤ n) × Accepts (n - k) ws
Accepts n (write_error e ∷ ws) = Accepts n ws

-- What went out is a proper part of the first `n` bytes.
abbrev pub Partly : ℕ → List ℕ → List ℕ → Type 0
Partly n buffer out = (m : ℕ) × (m < n) × (out ≡ take m buffer)

abbrev pub Written : ℕ → List ℕ → WritenResult → Type 0
Written n buffer (sent k out) = (k ≡ n) × (out ≡ take n buffer)
Written n buffer (stopped out) = Partly n buffer out
Written n buffer (blocked out) = Partly n buffer out

Accepts-sub :
    (n t k : ℕ) (ws : List WriteReturn) → Accepts (n - t - k) ws → Accepts (n - (t + k)) ws
Accepts-sub n t k ws h = let e : n - (t + k) ≡ n - t - k = omega arith in rw e h

-- The two ends that the loop has at `t` bytes.
Partly-here :
    (n t : ℕ) (buffer out : List ℕ) → ltb t n ≡ true → out ≡ take t buffer → Partly n buffer out
Partly-here n t buffer out more e = (t, ground arith, e)

Written-all :
    (n t : ℕ) (buffer out : List ℕ)
    → ltb t n ≡ false
    → t ≤ n
    → out ≡ take t buffer
    → Written n buffer (sent t out)
Written-all n t buffer out done le e =
    let same : t ≡ n = ground arith in (same, e ∙ ap (λ i. take i buffer) same)

writen_loop-Written :
    (n : ℕ) (buffer : List ℕ) (ws : List WriteReturn) (t : ℕ) (buf out : List ℕ)
    → t ≤ n
    → buf ≡ drop t buffer
    → out ≡ take t buffer
    → Accepts (n - t) ws
    → Written n buffer (writen_loop n ws t buf out)
unfolding writen_loop
writen_loop-Written n buffer [] t buf out le b o fits = elim (Bool-cases (ltb t n)) [
  | inl more ↦ rw (more, writen_loop) (Partly-here n t buffer out more o)
  | inr done ↦ rw (done, writen_loop) (Written-all n t buffer out done le o)
]
writen_loop-Written n buffer (write_error r ∷ ws) t buf out le b o fits =
    elim (Bool-cases (ltb t n)) [
      | inl more ↦ elim (Bool-cases (r == eintr)) [
        | inl again ↦
            rw (more, again, writen_loop) (writen_loop-Written n buffer ws t buf out le b o fits)
        | inr other ↦ rw (more, other, writen_loop) (Partly-here n t buffer out more o)
      ]
      | inr done ↦ rw (done, writen_loop) (Written-all n t buffer out done le o)
    ]
writen_loop-Written n buffer (wrote zero ∷ ws) t buf out le b o fits = elim (Bool-cases (ltb t n)) [
  | inl more ↦ rw (more, writen_loop) (Partly-here n t buffer out more o)
  | inr done ↦ rw (done, writen_loop) (Written-all n t buffer out done le o)
]
writen_loop-Written n buffer (wrote (suc k) ∷ ws) t buf out le b o (fit, fits) =
    elim (Bool-cases (ltb t n)) [
      | inl more ↦
          rw (more, writen_loop)
            (writen_loop-Written n buffer ws (t + suc k) (drop (suc k) buf)
              (out ++ take (suc k) buf) (ground arith)
              (ap (λ ys. drop (suc k) ys) b ∙ drop-drop (suc k) t buffer)
              (ap (λ ys. ys ++ take (suc k) buf) o
                ∙ ap (λ ys. take t buffer ++ take (suc k) ys) b
                ∙ take-take t (suc k) buffer)
              (Accepts-sub n t (suc k) ws fits))
      | inr done ↦ rw (done, writen_loop) (Written-all n t buffer out done le o)
    ]

-- writen: for writes that take no more than they are given, a return that is not -1 is exactly n,
-- with the first n bytes of the buffer sent in order; a failing or blocked call has sent fewer than
-- n bytes, a prefix of the buffer.
pub writen-Written :
    (n : ℕ) (buffer : List ℕ) (ws : List WriteReturn)
    → Accepts n ws
    → Written n buffer (writen n buffer ws)
unfolding writen
writen-Written n buffer ws fits =
    writen_loop-Written n buffer ws 0 buffer [] (omega arith) refl refl
      (let same : n - 0 ≡ n = omega arith in rw same fits)
