-- ===== src/Malloc.antt =====
-- The allocator of exercises/07-memory-allocation/malloc.c: a first-fit search over a linked list of
-- blocks, which grows by sbrk(). A list of blocks is `memBlockList` with its `next` pointers;
-- a block's `addr` is the address of its header, and a pointer is an address, NULL is `none`.
pub mod FirstFit
pub mod Layout
pub mod Recycle
mod Tests
use linux_programming_interf.Common.{
  ℕ, ◌+◌, ◌-◌, ◌%◌, ◌^◌, Bool, true, false, Option, none, some, List, [], ◌∷◌, leb, ◌==◌, ◌&&◌,
  if◌then◌else◌,
}

pub record Block : Type 0 where
  pub addr : ℕ
  pub size : ℕ
  pub occupied : ℕ

-- MEM_BLOCK_META_SIZE: three fields of 8 bytes, the last one padded.
abbrev pub meta_size : ℕ
meta_size = 24

-- `found` is the block that `findFreeBlock` returns (`last` is the same one); `missed` is NULL with
-- `last`, which is not set when the list is empty.
pub data Search : Type 0 where
  found : ℕ → Search
  missed : Option ℕ → Search

unfoldable pub find_from : ℕ → List Block → Option ℕ → Search
find_from sz [] last = missed last
find_from sz (p ∷ ps) last =
    let rest = find_from sz ps (some p.addr) in
    if (p.occupied == 0) && leb sz p.size then found p.addr else rest

unfoldable pub find_free_block : ℕ → List Block → Search
unfolding find_from
find_free_block sz blocks = find_from sz blocks none

-- `sbrk` answers an increment with the old program break, or `none` for (void *) -1. The increment
-- wraps around at 64 bits.
unfoldable pub request_space : (ℕ → Option ℕ) → ℕ → Option Block
request_space sbrk sz = elim (sbrk ((sz + meta_size) % 2 ^ 64)) [
  | none ↦ none
  | some p ↦ some (record { addr = p; size = sz; occupied = 0 })
]

abbrev pub with_occupied : ℕ → Block → Block
with_occupied v b = record { addr = b.addr; size = b.size; occupied = v }

-- `p->occupied = v`
unfoldable pub set_occupied : ℕ → ℕ → List Block → List Block
set_occupied p v [] = []
set_occupied p v (b ∷ bs) =
    let rest = set_occupied p v bs in if b.addr == p then with_occupied v b ∷ bs else b ∷ rest

-- `last->next = p`, the list ending with `p`
unfoldable pub link_after : ℕ → Block → List Block → List Block
link_after last p [] = []
link_after last p (b ∷ bs) =
    let rest = link_after last p bs in if b.addr == last then b ∷ p ∷ [] else b ∷ rest

-- The pointer `p + 1` and the list after `p->occupied = 1`.
unfoldable pub occupy : Option ℕ → List Block → Option ℕ × List Block
unfolding set_occupied
occupy none blocks = (none, blocks)
occupy (some p) blocks = (some (p + meta_size), set_occupied p 1 blocks)

-- The new block becomes the list, or follows `last`.
unfoldable pub extend : Option ℕ → Option Block → List Block → Option ℕ × List Block
unfolding link_after occupy
extend last none blocks = occupy none blocks
extend last (some p) [] = occupy (some p.addr) (p ∷ [])
extend none (some p) (b ∷ bs) = occupy none (b ∷ bs)
extend (some last) (some p) (b ∷ bs) = occupy (some p.addr) (link_after last p (b ∷ bs))

-- The rest of `myMalloc`, with what the search found.
unfoldable pub serve : (ℕ → Option ℕ) → ℕ → List Block → Search → Option ℕ × List Block
unfolding occupy extend request_space
serve sbrk sz blocks (found p) = occupy (some p) blocks
serve sbrk sz blocks (missed last) = extend last (request_space sbrk sz) blocks

unfoldable pub my_malloc : (ℕ → Option ℕ) → ℕ → List Block → Option ℕ × List Block
unfolding find_free_block serve
my_malloc sbrk sz blocks =
    if sz == 0 then (none, blocks) else serve sbrk sz blocks (find_free_block sz blocks)

-- The header at an address.
unfoldable pub block_at : ℕ → List Block → Option Block
block_at p [] = none
block_at p (b ∷ bs) = let rest = block_at p bs in if b.addr == p then some b else rest

-- The body of `myFree` for the header `p`; `none` is a failed assertion, or a pointer that no block
-- of the list has.
unfoldable pub free_at : ℕ → List Block → Option (List Block)
unfolding block_at set_occupied
free_at p blocks = elim (block_at p blocks) [
  | none ↦ none
  | some b ↦ if b.occupied == 1 then some (set_occupied p 0 blocks) else none
]

unfoldable pub my_free : ℕ → List Block → Option (List Block)
unfolding free_at
my_free ptr blocks = free_at (ptr - meta_size) blocks
