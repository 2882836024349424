-- ===== src/Inotify/Cache/Distinct.antt =====
-- The invariant of the watch cache: no two slots in use hold the same watch descriptor.
use linux_programming_interf.Common.{
  ℕ, zero, suc, ◌+◌, ◌≡◌, refl, ◌∙◌, Bool, true, false, ◌&&◌, ◌||◌, none, List, [], ◌∷◌, ◌++◌, map,
  inl, inr, arith, Bool-cases, set, replicate,
}
use linux_programming_interf.Common.Int.{ℤ, pos, negsuc, ◌==ℤ◌, is_nonneg}
use linux_programming_interf.Inotify.Paths.{FilePath, path_max, strncpy}
use linux_programming_interf.Inotify.Cache.{
  Watch, Cache, empty_slot, first_slot, find_watch, mark_cache_slot_empty, alloc_incr,
  find_empty_cache_slot, add_watch_to_cache, rewrite_slot, rewrite_cached_paths,
}

-- Some slot holds the watch descriptor.
abbrev pub occurs : ℤ → Cache → Bool
occurs wd [] = false
occurs wd (w ∷ ws) = (w.wd ==ℤ wd) || occurs wd ws

abbrev pub Distinct : Cache → Type 0
Distinct [] = Unit
Distinct (w ∷ ws) = ((is_nonneg w.wd && occurs w.wd ws) ≡ false) × Distinct ws

occurs-set :
    (c : Cache) (j : ℕ) (v : Watch) (wd : ℤ)
    → occurs wd c ≡ false
    → (v.wd ==ℤ wd) ≡ false
    → occurs wd (set c j v) ≡ false
occurs-set [] j v wd h k = refl
occurs-set (w ∷ ws) zero v wd h k = ground arith
occurs-set (w ∷ ws) (suc j) v wd h k = ground (arith, occurs-set ws j v wd)

-- A descriptor in use is not the one written, if the cache lacks that.
not_written :
    (a b : ℤ) (rest : Bool)
    → (is_nonneg b && ((a ==ℤ b) || rest)) ≡ false
    → is_nonneg a ≡ true
    → (b ==ℤ a) ≡ false
not_written a b rest h k = ground arith

-- What holds of the rest of the cache, for a written slot behind `w`.
fresh_below :
    (w v : Watch) (ws : Cache) (j : ℕ)
    → (is_nonneg w.wd && occurs w.wd ws) ≡ false
    → (is_nonneg v.wd && occurs v.wd (w ∷ ws)) ≡ false
    → (is_nonneg w.wd && occurs w.wd (set ws j v)) ≡ false
fresh_below w v ws j d h = elim (Bool-cases (is_nonneg w.wd)) [
  | inl live ↦
      rw live
        (occurs-set ws j v w.wd (rw live at d) (not_written w.wd v.wd (occurs v.wd ws) h live))
  | inr dead ↦ rw dead
]

-- The writes of the program: to a slot in use goes a descriptor that the cache lacks.
pub Distinct-set :
    (c : Cache) (j : ℕ) (v : Watch)
    → Distinct c
    → (is_nonneg v.wd && occurs v.wd c) ≡ false
    → Distinct (set c j v)
Distinct-set [] j v d h = tt
Distinct-set (w ∷ ws) zero v d h = ground arith
Distinct-set (w ∷ ws) (suc j) v d h =
    (fresh_below w v ws j d.0 h, Distinct-set ws j v d.1 (ground arith))

pub occurs-append-empty :
    (c : Cache) (n k : ℕ) → occurs (pos k) (c ++ replicate n empty_slot) ≡ occurs (pos k) c
occurs-append-empty [] zero k = refl
occurs-append-empty [] (suc n) k = occurs-append-empty [] n k
occurs-append-empty (w ∷ ws) n k = rw (occurs-append-empty ws n k)

live_occurs-append-empty :
    (a : ℤ) (c : Cache) (n : ℕ)
    → (is_nonneg a && occurs a (c ++ replicate n empty_slot)) ≡ (is_nonneg a && occurs a c)
live_occurs-append-empty (pos k) c n = occurs-append-empty c n k
live_occurs-append-empty (negsuc k) c n = refl

Distinct-append-empty : (c : Cache) (n : ℕ) → Distinct c → Distinct (c ++ replicate n empty_slot)
Distinct-append-empty [] zero d = tt
Distinct-append-empty [] (suc n) d = (refl, Distinct-append-empty [] n tt)
Distinct-append-empty (w ∷ ws) n d =
    (rw (live_occurs-append-empty w.wd ws n) d.0, Distinct-append-empty ws n d.1)

-- A search finds nothing only where no slot passes the test.
pub first_slot-none :
    (wd : ℤ) (c : Cache) (j : ℕ) → first_slot (λ w. w.wd ==ℤ wd) j c ≡ none → occurs wd c ≡ false
unfolding first_slot
first_slot-none wd [] j h = refl
first_slot-none wd (w ∷ ws) j h = ground (arith, first_slot-none wd ws (j + 1))

pub find_watch-none : (wd : ℤ) (c : Cache) → find_watch wd c ≡ none → occurs wd c ≡ false
unfolding find_watch
find_watch-none wd c h = first_slot-none wd c 0 h

pub mark_cache_slot_empty-Distinct :
    (c : Cache) (j : ℕ) → Distinct c → Distinct (mark_cache_slot_empty c j)
unfolding mark_cache_slot_empty
mark_cache_slot_empty-Distinct c j d = Distinct-set c j empty_slot d refl

pub find_empty_cache_slot-Distinct :
    (c : Cache) (k : ℕ)
    → Distinct c
    → let (slot, c') = find_empty_cache_slot c in
      Distinct c' × (occurs (pos k) c' ≡ occurs (pos k) c)
unfolding find_empty_cache_slot
find_empty_cache_slot-Distinct c k d =
    ground (arith, Distinct-append-empty c alloc_incr d, occurs-append-empty c alloc_incr k)

pub add_watch_to_cache-Distinct :
    (k : ℕ) (pathname : FilePath) (c : Cache)
    → Distinct c
    → occurs (pos k) c ≡ false
    → Distinct (add_watch_to_cache (pos k) pathname c).1
unfolding add_watch_to_cache
add_watch_to_cache-Distinct k pathname c d h =
    let f = find_empty_cache_slot-Distinct c k d in
    Distinct-set (find_empty_cache_slot c).1 (find_empty_cache_slot c).0
      (record { wd = pos k; path = strncpy pathname path_max }) f.0 (f.1 ∙ h)

module _ (full new : FilePath) where
  occurs-rewrite : (wd : ℤ) (c : Cache) → occurs wd (map (rewrite_slot full new) c) ≡ occurs wd c
  occurs-rewrite wd [] = refl
  occurs-rewrite wd (w ∷ ws) = rw (occurs-rewrite wd ws)

  Distinct-rewrite : (c : Cache) → Distinct c → Distinct (map (rewrite_slot full new) c)
  Distinct-rewrite [] d = tt
  Distinct-rewrite (w ∷ ws) d = (rw (occurs-rewrite w.wd ws) d.0, Distinct-rewrite ws d.1)

pub rewrite_cached_paths-Distinct :
    (old_dir old new_dir new : List ℕ) (c : Cache)
    → Distinct c
    → Distinct (rewrite_cached_paths old_dir old new_dir new c)
unfolding rewrite_cached_paths
rewrite_cached_paths-Distinct old_dir old new_dir new c d = Distinct-rewrite _ _ c d
