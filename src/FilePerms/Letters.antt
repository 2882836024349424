-- ===== src/FilePerms/Letters.antt =====
-- The letters of the string, and the permission bits.
use linux_programming_interf.Common.{
  ℕ, ◌≡◌, refl, ap, ◌∙◌, Bool, true, false, ◌||◌, List, [], ◌∷◌, ◌==◌,
}
use linux_programming_interf.FilePerms.{has_bit, fp_special, letter, execute, file_perm_str}

-- The bits that a character shows.
abbrev shown : ℕ → ℕ → Bool
shown c ch = ch == c

abbrev shown_x : ℕ → ℕ → Bool
shown_x lower ch = (ch == lower) || (ch == b'x')

abbrev shown_special : ℕ → ℕ → ℕ → Bool
shown_special lower upper ch = (ch == lower) || (ch == upper)

shown_r : (bit : Bool) → shown b'r' (letter b'r' bit) ≡ bit
shown_r true = refl
shown_r false = refl

shown_w : (bit : Bool) → shown b'w' (letter b'w' bit) ≡ bit
shown_w true = refl
shown_w false = refl

shown_sx : (x special : Bool) → shown_x b's' (execute b's' b'S' true x special) ≡ x
shown_sx true true = refl
shown_sx true false = refl
shown_sx false true = refl
shown_sx false false = refl

shown_s : (x special : Bool) → shown_special b's' b'S' (execute b's' b'S' true x special) ≡ special
shown_s true true = refl
shown_s true false = refl
shown_s false true = refl
shown_s false false = refl

shown_tx : (x special : Bool) → shown_x b't' (execute b't' b'T' true x special) ≡ x
shown_tx true true = refl
shown_tx true false = refl
shown_tx false true = refl
shown_tx false false = refl

shown_t : (x special : Bool) → shown_special b't' b'T' (execute b't' b'T' true x special) ≡ special
shown_t true true = refl
shown_t true false = refl
shown_t false true = refl
shown_t false false = refl

-- Reading the string back: the bits from 11 down to 0.
abbrev pub perm_bits : List ℕ → List Bool
perm_bits (a ∷ b ∷ c ∷ d ∷ e ∷ f ∷ g ∷ h ∷ i ∷ rest) =
    shown_special b's' b'S' c
    ∷ shown_special b's' b'S' f
    ∷ shown_special b't' b'T' i
    ∷ shown b'r' a
    ∷ shown b'w' b
    ∷ shown_x b's' c
    ∷ shown b'r' d
    ∷ shown b'w' e
    ∷ shown_x b's' f
    ∷ shown b'r' g
    ∷ shown b'w' h
    ∷ shown_x b't' i
    ∷ []
perm_bits s = []

abbrev pub bits_of : ℕ → List Bool
bits_of perm =
    has_bit perm 11
    ∷ has_bit perm 10
    ∷ has_bit perm 9
    ∷ has_bit perm 8
    ∷ has_bit perm 7
    ∷ has_bit perm 6
    ∷ has_bit perm 5
    ∷ has_bit perm 4
    ∷ has_bit perm 3
    ∷ has_bit perm 2
    ∷ has_bit perm 1
    ∷ has_bit perm 0
    ∷ []

-- Equal in front and behind.
cons : {a b : Bool} {xs ys : List Bool} → a ≡ b → xs ≡ ys → a ∷ xs ≡ b ∷ ys
cons {b = b} {xs = xs} p q = ap (λ x. x ∷ xs) p ∙ ap (λ zs. b ∷ zs) q

-- filePermStr: with FP_SPECIAL, the twelve permission bits of a mask can be read back from the
-- string, set-user-ID, set-group-ID and sticky included.
pub perm_bits-file_perm_str : (perm : ℕ) → perm_bits (file_perm_str perm fp_special) ≡ bits_of perm
unfolding file_perm_str
perm_bits-file_perm_str perm = cons (shown_s (has_bit perm 6) (has_bit perm 11)) (
    cons (shown_s (has_bit perm 3) (has_bit perm 10)) (
      cons (shown_t (has_bit perm 0) (has_bit perm 9)) (
        cons (shown_r (has_bit perm 8)) (
          cons (shown_w (has_bit perm 7)) (
            cons (shown_sx (has_bit perm 6) (has_bit perm 11)) (
              cons (shown_r (has_bit perm 5)) (
                cons (shown_w (has_bit perm 4)) (
                  cons (shown_sx (has_bit perm 3) (has_bit perm 10)) (
                    cons (shown_r (has_bit perm 2)) (
                      cons (shown_w (has_bit perm 1))
                        (cons (shown_tx (has_bit perm 0) (has_bit perm 9)) refl)))))))))))
