-- ===== src/Malloc/Recycle.antt =====
-- `myFree` and the layout: a freed block, and the next request of its size.
use linux_programming_interf.Common.{
  ℕ, ◌+◌, ◌≤◌, ◌≡◌, ◌≢◌, refl, ap, ◌∙◌, true, false, Option, none, some, List, [], ◌∷◌, ◌++◌, arith,
  leb, ◌==◌, ◌&&◌, ◌%◌, ◌^◌,
}
use linux_programming_interf.Malloc.{
  Block, meta_size, found, with_occupied, find_from, set_occupied, find_free_block, serve, occupy,
  my_malloc, my_free, free_at, block_at,
}
use linux_programming_interf.Malloc.Layout.{IsLaid, end_of, IsLaid-append}
use linux_programming_interf.Malloc.FirstFit.{
  NoneFits, Allocated, refused, reused, grown, my_malloc-Allocated,
}

-- A block behind others starts after where they start.
IsLaid-above :
    (lo : ℕ) (pre : List Block) (b : Block) (suf : List Block)
    → IsLaid lo (pre ++ b ∷ suf)
    → lo ≤ b.addr
IsLaid-above lo [] b suf (le, laid) = le
IsLaid-above lo (c ∷ pre) b suf (le, laid) =
    omega (arith, le, IsLaid-above (c.addr + meta_size + c.size) pre b suf laid)

IsLaid-marked :
    (v lo : ℕ) (pre : List Block) (b : Block) (suf : List Block)
    → IsLaid lo (pre ++ b ∷ suf)
    → IsLaid lo (pre ++ with_occupied v b ∷ suf)
IsLaid-marked v lo [] b suf laid = laid
IsLaid-marked v lo (c ∷ pre) b suf (le, laid) =
    (le, IsLaid-marked v (c.addr + meta_size + c.size) pre b suf laid)

-- The blocks before one have other addresses.
other_address :
    (lo : ℕ) (c : Block) (pre : List Block) (b : Block) (suf : List Block)
    → IsLaid lo (c ∷ (pre ++ b ∷ suf))
    → (c.addr == b.addr) ≡ false
other_address lo c pre b suf (le, laid) =
    let above : c.addr + meta_size + c.size ≤ b.addr =
      IsLaid-above (c.addr + meta_size + c.size) pre b suf laid in
    ground (arith, above)

set_occupied-middle :
    (v lo : ℕ) (pre : List Block) (b : Block) (suf : List Block)
    → IsLaid lo (pre ++ b ∷ suf)
    → set_occupied b.addr v (pre ++ b ∷ suf) ≡ pre ++ with_occupied v b ∷ suf
unfolding set_occupied
set_occupied-middle v lo [] b suf laid =
    let same : (b.addr == b.addr) ≡ true = ground arith in rw (same, set_occupied) refl
set_occupied-middle v lo (c ∷ pre) b suf (le, laid) =
    rw (other_address lo c pre b suf (le, laid), set_occupied)
      (ap (λ ys. c ∷ ys) (set_occupied-middle v (c.addr + meta_size + c.size) pre b suf laid))

block_at-middle :
    (lo : ℕ) (pre : List Block) (b : Block) (suf : List Block)
    → IsLaid lo (pre ++ b ∷ suf)
    → block_at b.addr (pre ++ b ∷ suf) ≡ some b
unfolding block_at
block_at-middle lo [] b suf laid =
    let same : (b.addr == b.addr) ≡ true = ground arith in rw (same, block_at) refl
block_at-middle lo (c ∷ pre) b suf (le, laid) =
    rw (other_address lo c pre b suf (le, laid), block_at)
      (block_at-middle (c.addr + meta_size + c.size) pre b suf laid)

find_from-middle :
    (sz : ℕ) (pre : List Block) (b : Block) (suf : List Block) (last : Option ℕ)
    → NoneFits sz pre
    → b.occupied ≡ 0
    → sz ≤ b.size
    → find_from sz (pre ++ b ∷ suf) last ≡ found b.addr
unfolding find_from
find_from-middle sz [] b suf last before free fits =
    let serves : ((b.occupied == 0) && leb sz b.size) ≡ true = ground (arith, free, fits) in
    rw (serves, find_from) refl
find_from-middle sz (c ∷ pre) b suf last (short, before) free fits =
    let skips : ((c.occupied == 0) && leb sz c.size) ≡ false = ground (arith, short) in
    rw (skips, find_from) (find_from-middle sz pre b suf (some c.addr) before free fits)

-- A pointer that was handed out can be freed, and the next request of that size, however sbrk()
-- then answers, gets the same pointer and leaves the same list.
abbrev pub Recycled : (ℕ → Option ℕ) → ℕ → Option ℕ × List Block → Type 0
Recycled sbrk sz (none, bs) = Unit
Recycled sbrk sz (some ptr, bs) =
    (freed : List Block) × (my_free ptr bs ≡ some freed)
    × (my_malloc sbrk sz freed ≡ (some ptr, bs))

free_at-middle :
    (lo : ℕ) (pre : List Block) (b : Block) (suf : List Block)
    → IsLaid lo (pre ++ b ∷ suf)
    → b.occupied ≡ 1
    → free_at b.addr (pre ++ b ∷ suf) ≡ some (pre ++ with_occupied 0 b ∷ suf)
unfolding free_at
free_at-middle lo pre b suf laid used =
    let mine : (b.occupied == 1) ≡ true = ground (arith, used) in
    rw (block_at-middle lo pre b suf laid, mine, free_at)
      (ap some (set_occupied-middle 0 lo pre b suf laid))

my_free-middle :
    (lo : ℕ) (pre : List Block) (b : Block) (suf : List Block)
    → IsLaid lo (pre ++ b ∷ suf)
    → b.occupied ≡ 1
    → my_free (b.addr + meta_size) (pre ++ b ∷ suf) ≡ some (pre ++ with_occupied 0 b ∷ suf)
unfolding my_free
my_free-middle lo pre b suf laid used =
    ap (λ q. free_at q (pre ++ b ∷ suf)) (omega arith) ∙ free_at-middle lo pre b suf laid used

my_malloc-middle :
    (sbrk : ℕ → Option ℕ) (sz lo : ℕ) (pre : List Block) (b : Block) (suf : List Block)
    → sz ≢ 0
    → IsLaid lo (pre ++ b ∷ suf)
    → NoneFits sz pre
    → b.occupied ≡ 0
    → sz ≤ b.size
    → my_malloc sbrk sz (pre ++ b ∷ suf)
      ≡ (some (b.addr + meta_size), pre ++ with_occupied 1 b ∷ suf)
unfolding my_malloc find_free_block serve occupy
my_malloc-middle sbrk sz lo pre b suf positive laid before free fits =
    let some_bytes : (sz == 0) ≡ false = ground (arith, positive) in
    rw
      (
        some_bytes,
        find_from-middle sz pre b suf none before free fits,
        set_occupied-middle 1 lo pre b suf laid,
        my_malloc,
      )
      refl

Recycled-middle :
    (sbrk : ℕ → Option ℕ) (sz lo : ℕ) (pre : List Block) (b : Block) (suf : List Block)
    → sz ≢ 0
    → IsLaid lo (pre ++ b ∷ suf)
    → NoneFits sz pre
    → sz ≤ b.size
    → Recycled sbrk sz (some (b.addr + meta_size), pre ++ with_occupied 1 b ∷ suf)
Recycled-middle sbrk sz lo pre b suf positive laid before fits = (
  pre ++ with_occupied 0 b ∷ suf,
  my_free-middle lo pre (with_occupied 1 b) suf (IsLaid-marked 1 lo pre b suf laid) refl,
  my_malloc-middle sbrk sz lo pre (with_occupied 0 b) suf positive
      (IsLaid-marked 0 lo pre b suf laid) before refl fits,
)

Allocated-Recycled :
    (sbrk again : ℕ → Option ℕ) (sz lo : ℕ) (bs : List Block) (r : Option ℕ × List Block)
    → sz ≢ 0
    → IsLaid lo bs
    → ((a : ℕ) → sbrk ((sz + meta_size) % 2 ^ 64) ≡ some a → end_of lo bs ≤ a)
    → Allocated sbrk sz bs r
    → Recycled again sz r
Allocated-Recycled sbrk again sz lo bs _ positive laid above (refused e) = tt
Allocated-Recycled sbrk again sz lo _ _ positive laid above (reused pre b suf free fits before) =
    Recycled-middle again sz lo pre b suf positive laid before fits
Allocated-Recycled sbrk again sz lo bs _ positive laid above (grown b size space before) =
    Recycled-middle again sz lo bs b [] positive (IsLaid-append lo bs b laid (above b.addr space))
      before (omega (arith, size))

-- myMalloc and myFree: for a positive size, blocks that lie one behind the other and an sbrk that
-- answers with addresses behind the last one, a pointer that myMalloc returns can be freed, its
-- assertion holding, and the next call for the same size returns the same pointer and the same list
-- whatever sbrk would answer.
pub my_malloc-Recycled :
    (sbrk again : ℕ → Option ℕ) (sz lo : ℕ) (bs : List Block)
    → sz ≢ 0
    → IsLaid lo bs
    → ((a : ℕ) → sbrk ((sz + meta_size) % 2 ^ 64) ≡ some a → end_of lo bs ≤ a)
    → Recycled again sz (my_malloc sbrk sz bs)
my_malloc-Recycled sbrk again sz lo bs positive laid above =
    Allocated-Recycled sbrk again sz lo bs _ positive laid above
      (my_malloc-Allocated sbrk sz lo bs laid above)

-- The list after a call lies as before.
abbrev pub StaysLaid : ℕ → Option ℕ × List Block → Type 0
StaysLaid lo (ptr, bs) = IsLaid lo bs

Allocated-IsLaid :
    (sbrk : ℕ → Option ℕ) (sz lo : ℕ) (bs : List Block) (r : Option ℕ × List Block)
    → IsLaid lo bs
    → ((a : ℕ) → sbrk ((sz + meta_size) % 2 ^ 64) ≡ some a → end_of lo bs ≤ a)
    → Allocated sbrk sz bs r
    → StaysLaid lo r
Allocated-IsLaid sbrk sz lo bs _ laid above (refused e) = laid
Allocated-IsLaid sbrk sz lo _ _ laid above (reused pre b suf free fits before) =
    IsLaid-marked 1 lo pre b suf laid
Allocated-IsLaid sbrk sz lo bs _ laid above (grown b size space before) =
    IsLaid-append lo bs (with_occupied 1 b) laid (above b.addr space)

-- myMalloc: when the blocks lie one behind the other without overlap and sbrk answers with addresses
-- behind the last one, they still do after the call, the new block included.
pub my_malloc-IsLaid :
    (sbrk : ℕ → Option ℕ) (sz lo : ℕ) (bs : List Block)
    → IsLaid lo bs
    → ((a : ℕ) → sbrk ((sz + meta_size) % 2 ^ 64) ≡ some a → end_of lo bs ≤ a)
    → StaysLaid lo (my_malloc sbrk sz bs)
my_malloc-IsLaid sbrk sz lo bs laid above =
    Allocated-IsLaid sbrk sz lo bs _ laid above (my_malloc-Allocated sbrk sz lo bs laid above)
