-- ===== src/Malloc/Tests.antt =====
-- Runs of the allocator, and its theorems at concrete inputs.
use linux_programming_interf.Common.{
  ℕ, ◌+◌, ◌%◌, ◌^◌, ◌≤◌, ◌≡◌, refl, Option, none, some, List, [], ◌∷◌, arith,
}
use linux_programming_interf.Malloc.{Block, meta_size, my_malloc, my_free}
use linux_programming_interf.Malloc.Layout.{IsLaid, end_of}
use linux_programming_interf.Malloc.FirstFit.{Allocated, my_malloc-Allocated}
use linux_programming_interf.Malloc.Recycle.{Recycled, my_malloc-Recycled}

abbrev heap : List Block
heap =
    record { addr = 1000; size = 80; occupied = 1 }
    ∷ record { addr = 1104; size = 16; occupied = 0 }
    ∷ record { addr = 1144; size = 160; occupied = 0 }
    ∷ []

abbrev third_used : List Block
third_used =
    record { addr = 1000; size = 80; occupied = 1 }
    ∷ record { addr = 1104; size = 16; occupied = 0 }
    ∷ record { addr = 1144; size = 160; occupied = 1 }
    ∷ []

abbrev longer : List Block
longer =
    record { addr = 1000; size = 80; occupied = 1 }
    ∷ record { addr = 1104; size = 16; occupied = 0 }
    ∷ record { addr = 1144; size = 160; occupied = 0 }
    ∷ record { addr = 1328; size = 200; occupied = 1 }
    ∷ []

-- The break is at 1328.
abbrev sbrk : ℕ → Option ℕ
sbrk increment = some 1328

heap-IsLaid : IsLaid 1000 heap
heap-IsLaid = (omega arith, (omega arith, (omega arith, tt)))

sbrk_above : (sz a : ℕ) → sbrk ((sz + meta_size) % 2 ^ 64) ≡ some a → end_of 1000 heap ≤ a
sbrk_above sz a e = let same : 1328 ≡ a = cc (e) in omega (arith, same)

second_fits : my_malloc sbrk 100 heap ≡ (some 1168, third_used)
unfolding my_malloc
second_fits = refl

grows : my_malloc sbrk 200 heap ≡ (some 1352, longer)
unfolding my_malloc
grows = refl

free_twice : my_free 1128 heap ≡ none
unfolding my_free
free_twice = refl

my_malloc-Allocated_example : Allocated sbrk 100 heap (my_malloc sbrk 100 heap)
my_malloc-Allocated_example = my_malloc-Allocated sbrk 100 1000 heap heap-IsLaid (sbrk_above 100)

my_malloc-Recycled_example : Recycled (λ _. none) 200 (my_malloc sbrk 200 heap)
my_malloc-Recycled_example =
    my_malloc-Recycled sbrk (λ _. none) 200 1000 heap (λ e. omega (arith, e)) heap-IsLaid
      (sbrk_above 200)
