-- ===== src/Malloc/FirstFit.antt =====
-- What `findFreeBlock` and `myMalloc` find: the first free block that is large enough.
use linux_programming_interf.Common.{
  ℕ, ◌+◌, ◌≤◌, ◌<◌, ◌≡◌, ◌≢◌, ◌⊎◌, refl, ap, ◌∙◌, true, false, Option, none, some, List, [], ◌∷◌,
  ◌++◌, inl, inr, arith, leb, ◌==◌, ◌&&◌, Bool-cases, Option-cases, ◌%◌, ◌^◌,
}
use linux_programming_interf.Malloc.{
  Block, meta_size, Search, found, missed, with_occupied, find_from, set_occupied, link_after,
  occupy, extend, request_space, my_malloc, find_free_block, serve,
}
use linux_programming_interf.Malloc.Layout.{IsLaid, end_of, set_occupied-append}

-- No block of the list can serve a request of `sz` bytes.
abbrev pub NoneFits : ℕ → List Block → Type 0
NoneFits sz [] = Unit
NoneFits sz (b ∷ bs) = ((b.occupied ≢ 0) ⊎ (b.size < sz)) × NoneFits sz bs

-- `l` is the address of the last block, and a block linked there is appended.
abbrev pub EndsAt : List Block → Option ℕ → Option ℕ → Type 0
EndsAt [] last l = l ≡ last
EndsAt (b ∷ bs) last l =
    (a : ℕ) × (l ≡ some a)
    × (b.addr ≤ a)
    × ((p : Block) → link_after a p (b ∷ bs) ≡ (b ∷ bs) ++ p ∷ [])

-- The result of a search, and what a write through the pointer to a hit does.
pub data FirstFit : ℕ → ℕ → List Block → Option ℕ → Search → Type 0 where
  hit :
      {sz lo : ℕ} {last : Option ℕ} (pre : List Block) (b : Block) (suf : List Block)
      → b.occupied ≡ 0
      → sz ≤ b.size
      → NoneFits sz pre
      → lo ≤ b.addr
      → set_occupied b.addr 1 (pre ++ b ∷ suf) ≡ pre ++ with_occupied 1 b ∷ suf
      → FirstFit sz lo (pre ++ b ∷ suf) last (found b.addr)
  miss :
      {sz lo : ℕ} {bs : List Block} {last : Option ℕ} (l : Option ℕ)
      → NoneFits sz bs
      → EndsAt bs last l
      → FirstFit sz lo bs last (missed l)

EndsAt-cons :
    (b : Block) (bs : List Block) (last l : Option ℕ)
    → IsLaid (b.addr + meta_size + b.size) bs
    → EndsAt bs (some b.addr) l
    → EndsAt (b ∷ bs) last l
unfolding link_after
EndsAt-cons b [] last l laid e =
    let same : (b.addr == b.addr) ≡ true = ground arith in
    (b.addr, e, omega arith, λ p. rw (same, link_after) refl)
EndsAt-cons b (c ∷ cs) last l (le, laid) (a, e, below, links) =
    let other : (b.addr == a) ≡ false = ground (arith, below, le) in
    (a, e, omega (arith, below, le), λ p. rw (other, link_after) (ap (λ ys. b ∷ ys) (links p)))

-- A search past a block that does not fit.
FirstFit-skip :
    (sz lo : ℕ) (b : Block) (bs : List Block) (last : Option ℕ) (r : Search)
    → ((b.occupied ≢ 0) ⊎ (b.size < sz))
    → lo ≤ b.addr
    → IsLaid (b.addr + meta_size + b.size) bs
    → FirstFit sz (b.addr + meta_size + b.size) bs (some b.addr) r
    → FirstFit sz lo (b ∷ bs) last r
unfolding set_occupied
FirstFit-skip sz lo b _ last _ short le laid (hit pre c suf free fits before above e) =
    let other : (b.addr == c.addr) ≡ false = ground (arith, above) in
    hit (b ∷ pre) c suf free fits (short, before) (omega (arith, above, le))
      (rw (other, set_occupied) (ap (λ ys. b ∷ ys) e))
FirstFit-skip sz lo b bs last _ short le laid (miss l before ends) =
    miss l (short, before) (EndsAt-cons b bs last l laid ends)

set_occupied-head :
    (b : Block) (bs : List Block) → set_occupied b.addr 1 (b ∷ bs) ≡ with_occupied 1 b ∷ bs
unfolding set_occupied
set_occupied-head b bs =
    let same : (b.addr == b.addr) ≡ true = ground arith in rw (same, set_occupied) refl

-- findFreeBlock returns the first block that is free and has room for sz bytes, or NULL if there is
-- none, and then `last` is the end of the list.
pub find_from-FirstFit :
    (sz lo : ℕ) (bs : List Block) (last : Option ℕ)
    → IsLaid lo bs
    → FirstFit sz lo bs last (find_from sz bs last)
unfolding find_from
find_from-FirstFit sz lo [] last laid = miss last tt refl
find_from-FirstFit sz lo (b ∷ bs) last (le, laid) =
    elim (Bool-cases ((b.occupied == 0) && leb sz b.size)) [
      | inl serves ↦
          rw (serves, find_from)
            (let free : b.occupied ≡ 0 = ground (arith, serves) in
              let fits : sz ≤ b.size = ground (arith, serves) in
              hit [] b bs free fits tt le (set_occupied-head b bs))
      | inr short ↦
          rw (short, find_from)
            (let not_here : (b.occupied ≢ 0) ⊎ (b.size < sz) = ground (arith, short) in
              FirstFit-skip sz lo b bs last _ not_here le laid
                (find_from-FirstFit sz (b.addr + meta_size + b.size) bs (some b.addr) laid))
    ]

-- What myMalloc gives for `sz` bytes: NULL with the list as it was, the first block that fits with
-- its mark set, or a new block at the end.
pub data Allocated : (ℕ → Option ℕ) → ℕ → List Block → Option ℕ × List Block → Type 0 where
  refused :
      {sbrk : ℕ → Option ℕ} {sz : ℕ} {bs : List Block}
      → ((sz ≡ 0) ⊎ (NoneFits sz bs × (sbrk ((sz + meta_size) % 2 ^ 64) ≡ none)))
      → Allocated sbrk sz bs (none, bs)
  reused :
      {sbrk : ℕ → Option ℕ} {sz : ℕ} (pre : List Block) (b : Block) (suf : List Block)
      → b.occupied ≡ 0
      → sz ≤ b.size
      → NoneFits sz pre
      → Allocated sbrk sz
          (pre ++ b ∷ suf)
          (some (b.addr + meta_size), pre ++ with_occupied 1 b ∷ suf)
  grown :
      {sbrk : ℕ → Option ℕ} {sz : ℕ} {bs : List Block} (b : Block)
      → b.size ≡ sz
      → sbrk ((sz + meta_size) % 2 ^ 64) ≡ some b.addr
      → NoneFits sz bs
      → Allocated sbrk sz bs (some (b.addr + meta_size), bs ++ with_occupied 1 b ∷ [])

extend-linked :
    (last : Option ℕ) (lo : ℕ) (p : Block) (bs : List Block)
    → IsLaid lo bs
    → end_of lo bs ≤ p.addr
    → EndsAt bs none last
    → extend last (some p) bs ≡ (some (p.addr + meta_size), bs ++ with_occupied 1 p ∷ [])
unfolding extend occupy
extend-linked last lo p [] laid above ends =
    ap (λ ys. (some (p.addr + meta_size), ys)) (set_occupied-append 1 lo [] p laid above)
extend-linked none lo p (b ∷ bs) laid above (a, e, below, links) = cc (e)
extend-linked (some last) lo p (b ∷ bs) laid above (a, e, below, links) =
    let same : last ≡ a = cc (e) in
    let linked : link_after last p (b ∷ bs) ≡ (b ∷ bs) ++ p ∷ [] =
      ap (λ i. link_after i p (b ∷ bs)) same ∙ links p in
    ap (λ ys. (some (p.addr + meta_size), set_occupied p.addr 1 ys)) linked
    ∙ ap (λ ys. (some (p.addr + meta_size), ys)) (set_occupied-append 1 lo (b ∷ bs) p laid above)

missed-Allocated :
    (sbrk : ℕ → Option ℕ) (sz lo : ℕ) (bs : List Block) (last : Option ℕ)
    → IsLaid lo bs
    → ((a : ℕ) → sbrk ((sz + meta_size) % 2 ^ 64) ≡ some a → end_of lo bs ≤ a)
    → NoneFits sz bs
    → EndsAt bs none last
    → Allocated sbrk sz bs (extend last (request_space sbrk sz) bs)
unfolding request_space extend occupy
missed-Allocated sbrk sz lo bs last laid above before ends =
    elim (Option-cases (sbrk ((sz + meta_size) % 2 ^ 64))) [
      | inl no_space ↦ rw (no_space, request_space) (refused (inr (before, no_space)))
      | inr (a, space) ↦
          let p : Block = record { addr = a; size = sz; occupied = 0 } in
          rw (space, request_space, extend-linked last lo p bs laid (above a space) ends)
            (grown p refl space before)
    ]

-- A search result, served.
FirstFit-Allocated :
    (sbrk : ℕ → Option ℕ) (sz lo : ℕ) (bs : List Block) (r : Search)
    → IsLaid lo bs
    → ((a : ℕ) → sbrk ((sz + meta_size) % 2 ^ 64) ≡ some a → end_of lo bs ≤ a)
    → FirstFit sz lo bs none r
    → Allocated sbrk sz bs (serve sbrk sz bs r)
unfolding serve occupy
FirstFit-Allocated sbrk sz lo _ _ laid above (hit pre b suf free fits before le e) =
    rw (e, serve) (reused pre b suf free fits before)
FirstFit-Allocated sbrk sz lo bs _ laid above (miss last before ends) =
    missed-Allocated sbrk sz lo bs last laid above before ends

-- myMalloc: for blocks that lie one behind the other and an sbrk that answers with addresses behind
-- the last one, the call returns NULL and changes nothing only for size 0 or when no block fits and
-- sbrk fails; otherwise it marks the first free block that is large enough, or, when there is none,
-- a new block of exactly the size asked for at the end of the list, and returns the address behind
-- the block's header.
pub my_malloc-Allocated :
    (sbrk : ℕ → Option ℕ) (sz lo : ℕ) (bs : List Block)
    → IsLaid lo bs
    → ((a : ℕ) → sbrk ((sz + meta_size) % 2 ^ 64) ≡ some a → end_of lo bs ≤ a)
    → Allocated sbrk sz bs (my_malloc sbrk sz bs)
unfolding my_malloc
my_malloc-Allocated sbrk sz lo bs laid above = elim (Bool-cases (sz == 0)) [
  | inl empty ↦ rw (empty, my_malloc) (refused (inl (ground arith)))
  | inr some_bytes ↦
      rw (some_bytes, my_malloc)
        (FirstFit-Allocated sbrk sz lo bs (find_free_block sz bs) laid above
          (find_from-FirstFit sz lo bs none laid))
]
