-- ===== src/Malloc/Layout.antt =====
-- Where the blocks lie: one behind the other, as sbrk() hands them out.
use linux_programming_interf.Common.{
  ℕ, ◌+◌, ◌≤◌, ◌≡◌, refl, ap, true, false, List, [], ◌∷◌, ◌++◌, arith, ◌==◌,
}
use linux_programming_interf.Malloc.{Block, meta_size, with_occupied, set_occupied}

-- Each block, header and data, ends before the next one starts; the first starts at `lo` or later.
abbrev pub IsLaid : ℕ → List Block → Type 0
IsLaid lo [] = Unit
IsLaid lo (b ∷ bs) = (lo ≤ b.addr) × IsLaid (b.addr + meta_size + b.size) bs

-- Where the last block ends.
abbrev pub end_of : ℕ → List Block → ℕ
end_of lo [] = lo
end_of lo (b ∷ bs) = end_of (b.addr + meta_size + b.size) bs

pub end_of_after : (lo : ℕ) (bs : List Block) → IsLaid lo bs → lo ≤ end_of lo bs
end_of_after lo [] laid = omega arith
end_of_after lo (b ∷ bs) (le, laid) =
    omega (arith, le, end_of_after (b.addr + meta_size + b.size) bs laid)

pub IsLaid-append :
    (lo : ℕ) (bs : List Block) (b : Block)
    → IsLaid lo bs
    → end_of lo bs ≤ b.addr
    → IsLaid lo (bs ++ b ∷ [])
IsLaid-append lo [] b laid h = (h, tt)
IsLaid-append lo (c ∷ bs) b (le, laid) h =
    (le, IsLaid-append (c.addr + meta_size + c.size) bs b laid h)

-- A write through the pointer to the last block.
pub set_occupied-append :
    (v lo : ℕ) (bs : List Block) (b : Block)
    → IsLaid lo bs
    → end_of lo bs ≤ b.addr
    → set_occupied b.addr v (bs ++ b ∷ []) ≡ bs ++ with_occupied v b ∷ []
unfolding set_occupied
set_occupied-append v lo [] b laid h =
    let same : (b.addr == b.addr) ≡ true = ground arith in rw (same, set_occupied) refl
set_occupied-append v lo (c ∷ bs) b (le, laid) h =
    let other : (c.addr == b.addr) ≡ false =
      ground (arith, end_of_after (c.addr + meta_size + c.size) bs laid, h) in
    rw (other, set_occupied)
      (ap (λ ys. c ∷ ys) (set_occupied-append v (c.addr + meta_size + c.size) bs b laid h))
