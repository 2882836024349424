-- ===== src/Inotify/Cache/Lookup.antt =====
-- The watch cache as a finite map from watch descriptors to pathnames: what each operation of the
-- cache does to that map.
use mathlib.Core.Option
use native.Mathlib.Nat.{zero-add}
use mathlib.Core.Path.{subst}
use linux_programming_interf.Common.{
  ap, ◌<◌, ℕ, zero, suc, ◌+◌, ◌≡◌, refl, ◌∙◌, sym, Bool, true, false, Option, none, some, List, [],
  ◌∷◌, ◌++◌, map, inl, inr, arith, if◌then◌else◌, Bool-cases, Option-cases, ◌==◌, length, get_elem?,
  set, replicate,
}
use linux_programming_interf.Common.Int.{pos, minus_one, ◌==ℤ◌}
use linux_programming_interf.Inotify.Paths.{
  FilePath, path_max, strncpy, snprintf, join, rewrite_path,
}
use linux_programming_interf.Inotify.Paths.Under.{Renamed, rewrite_path-Renamed}
use linux_programming_interf.Inotify.Cache.{
  Watch, Cache, empty_slot, first_slot, find_watch, mark_cache_slot_empty, alloc_incr,
  find_empty_cache_slot, add_watch_to_cache, rewrite_slot, rewrite_cached_paths,
}
use linux_programming_interf.Inotify.Cache.Distinct.{occurs, occurs-append-empty, Distinct}

-- The pathname cached for a watch descriptor.
unfoldable pub path_of : ℕ → Cache → Option FilePath
path_of k [] = none
path_of k (w ∷ ws) = let rest = path_of k ws in if w.wd ==ℤ pos k then some w.path else rest

-- The slot that a search finds passes the test, and none before it does.
abbrev pub Found : (Watch → Bool) → Cache → ℕ → Type 0
Found test c i = (w : Watch) × (get_elem? c i ≡ some w) × (test w ≡ true)

pub first_slot-Found :
    (test : Watch → Bool) (c : Cache) (j i : ℕ)
    → first_slot test j c ≡ some i
    → (d : ℕ) × (i ≡ j + d) × Found test c d
unfolding first_slot
first_slot-Found test [] j i h = cc
first_slot-Found test (w ∷ ws) j i h = elim (Bool-cases (test w)) [
  | inl hit ↦ (0, ground arith, (w, refl, hit))
  | inr miss ↦
      let (d, e, f) = first_slot-Found test ws (j + 1) i (rw miss at h) in (suc d, omega arith, f)
]

pub path_of-none : (k : ℕ) (c : Cache) → occurs (pos k) c ≡ false → path_of k c ≡ none
unfolding path_of
path_of-none k [] h = refl
path_of-none k (w ∷ ws) h = ground (arith, path_of-none k ws)

occurs-get_elem? :
    (c : Cache) (j n : ℕ) (w : Watch)
    → get_elem? c j ≡ some w
    → w.wd ≡ pos n
    → occurs (pos n) c ≡ true
occurs-get_elem? [] j n w g h = cc
occurs-get_elem? (x ∷ xs) zero n w g h = ground arith
occurs-get_elem? (x ∷ xs) (suc j) n w g h = ground (arith, occurs-get_elem? xs j n w)

path_of-set :
    (c : Cache) (j k : ℕ) (v w : Watch)
    → get_elem? c j ≡ some w
    → (w.wd ==ℤ pos k) ≡ false
    → occurs v.wd c ≡ false
    → path_of k (set c j v) ≡ (if v.wd ==ℤ pos k then some v.path else path_of k c)
unfolding path_of
path_of-set [] j k v w g h o = cc
path_of-set (x ∷ xs) zero k v w g h o = ground arith
path_of-set (x ∷ xs) (suc j) k v w g h o = ground (arith, path_of-set xs j k v w)

path_of-clear :
    (c : Cache) (j k n : ℕ) (w : Watch)
    → Distinct c
    → get_elem? c j ≡ some w
    → w.wd ≡ pos n
    → path_of k (set c j empty_slot) ≡ (if n == k then none else path_of k c)
unfolding path_of
path_of-clear [] j k n w d g h = cc
path_of-clear (x ∷ xs) zero k n w d g h = ground (arith, path_of-none n xs)
path_of-clear (x ∷ xs) (suc j) k n w d g h =
    ground (arith, path_of-clear xs j k n w, occurs-get_elem? xs j n w)

path_of-append-empty : (c : Cache) (n k : ℕ) → path_of k (c ++ replicate n empty_slot) ≡ path_of k c
unfolding path_of
path_of-append-empty [] zero k = refl
path_of-append-empty [] (suc n) k = path_of-append-empty [] n k
path_of-append-empty (w ∷ ws) n k = rw (path_of-append-empty ws n k)

path_of-rewrite :
    (full new : FilePath) (k : ℕ) (c : Cache)
    → path_of k (map (rewrite_slot full new) c) ≡ Option.map (rewrite_path full new) (path_of k c)
unfolding path_of
path_of-rewrite full new k [] = refl
path_of-rewrite full new k (w ∷ ws) = ground (arith, path_of-rewrite full new k ws)

get_elem?-append-length {ℓ} :
    {A : Type ℓ} (xs : List A) (y : A) (ys : List A) → get_elem? (xs ++ y ∷ ys) (length xs) ≡ some y
get_elem?-append-length [] y ys = refl
get_elem?-append-length (x ∷ xs) y ys = get_elem?-append-length xs y ys

first_slot-path_of :
    (k : ℕ) (c : Cache) (j i : ℕ)
    → first_slot (λ w. w.wd ==ℤ pos k) j c ≡ some i
    → (d : ℕ) × (i ≡ j + d) × (w : Watch) × (get_elem? c d ≡ some w) × (path_of k c ≡ some w.path)
unfolding first_slot path_of
first_slot-path_of k [] j i h = cc
first_slot-path_of k (w ∷ ws) j i h = elim (Bool-cases (w.wd ==ℤ pos k)) [
  | inl hit ↦ (0, ground arith, w, refl, rw hit)
  | inr miss ↦
      let (d, e, w', g, f) = first_slot-path_of k ws (j + 1) i (rw miss at h) in
      (suc d, omega arith, w', g, rw miss f)
]

-- What findEmptyCacheSlot() returns is an unused slot of the cache that it leaves, in which every
-- descriptor has the pathname that it had.
find_empty_cache_slot-unused :
    (c : Cache)
    → let (slot, c') = find_empty_cache_slot c in
      Found (λ w. w.wd ==ℤ minus_one) c' slot × ((k : ℕ) → path_of k c' ≡ path_of k c)
unfolding find_empty_cache_slot
find_empty_cache_slot-unused c = elim (Option-cases (first_slot (λ w. w.wd ==ℤ minus_one) 0 c)) [
  | inl full ↦
      rw (full, find_empty_cache_slot)
        (
          (empty_slot, get_elem?-append-length c empty_slot (replicate 199 empty_slot), refl),
          path_of-append-empty c alloc_incr,
        )
  | inr (i, free) ↦
      let (d, e, f) = first_slot-Found (λ w. w.wd ==ℤ minus_one) c 0 i free in
      rw (free, find_empty_cache_slot) (rw (e ∙ zero-add d) f, λ k. refl)
]

find_empty_cache_slot-occurs :
    (n : ℕ) (c : Cache) → occurs (pos n) (find_empty_cache_slot c).1 ≡ occurs (pos n) c
unfolding find_empty_cache_slot
find_empty_cache_slot-occurs n c = ground (arith, occurs-append-empty c alloc_incr n)

-- addWatchToCache() for a descriptor that the cache lacks: that descriptor gets the pathname (its
-- first PATH_MAX bytes), and every other descriptor keeps its own.
pub path_of-add_watch_to_cache :
    (n k : ℕ) (pathname : FilePath) (c : Cache)
    → occurs (pos n) c ≡ false
    → path_of k (add_watch_to_cache (pos n) pathname c).1
      ≡ (if n == k then some (strncpy pathname path_max) else path_of k c)
unfolding add_watch_to_cache
path_of-add_watch_to_cache n k pathname c h =
    let (found, same) = find_empty_cache_slot-unused c in
    let (w, g, unused) = found in
    let no_match : (w.wd ==ℤ pos k) ≡ false = ground arith in
    path_of-set (find_empty_cache_slot c).1 (find_empty_cache_slot c).0 k
      (record { wd = pos n; path = strncpy pathname path_max }) w g no_match
      ((find_empty_cache_slot-occurs n c) ∙ h)
    ∙ rw (same k)

-- findWatch() and the map agree: a slot found holds the descriptor and its pathname.
pub find_watch-path_of :
    (k i : ℕ) (c : Cache)
    → find_watch (pos k) c ≡ some i
    → (w : Watch) × (get_elem? c i ≡ some w) × (path_of k c ≡ some w.path)
unfolding find_watch
find_watch-path_of k i c h =
    let (d, e, w, g, f) = first_slot-path_of k c 0 i h in
    (w, subst (λ x. get_elem? c x ≡ some w) (sym (e ∙ zero-add d)) g, f)

-- markCacheSlotEmpty() on the slot of a descriptor takes that descriptor, and no other, out of the
-- map.
pub path_of-mark_cache_slot_empty :
    (c : Cache) (j k n : ℕ) (w : Watch)
    → Distinct c
    → get_elem? c j ≡ some w
    → w.wd ≡ pos n
    → path_of k (mark_cache_slot_empty c j) ≡ (if n == k then none else path_of k c)
unfolding mark_cache_slot_empty
path_of-mark_cache_slot_empty c j k n w d g h = path_of-clear c j k n w d g h

-- rewriteCachedPaths() keeps every descriptor and maps its pathname.
pub path_of-rewrite_cached_paths :
    (old_dir old new_dir new : FilePath) (k : ℕ) (c : Cache)
    → path_of k (rewrite_cached_paths old_dir old new_dir new c)
      ≡ Option.map
          (rewrite_path
            (snprintf path_max (join old_dir old))
            (snprintf path_max (join new_dir new)))
          (path_of k c)
unfolding rewrite_cached_paths
path_of-rewrite_cached_paths old_dir old new_dir new k c = path_of-rewrite _ _ k c

-- rewriteCachedPaths(): every descriptor stays, and its pathname becomes what the rename makes of it,
-- if the new one and the old one together are shorter than PATH_MAX.
pub rewrite_cached_paths-Renamed :
    (old_dir old new_dir new : FilePath) (k : ℕ) (c : Cache) (path : FilePath)
    → path_of k c ≡ some path
    → length (snprintf path_max (join new_dir new)) + length path < path_max
    → (path' : FilePath) × (path_of k (rewrite_cached_paths old_dir old new_dir new c) ≡ some path')
      × Renamed
          (snprintf path_max (join old_dir old))
          (snprintf path_max (join new_dir new))
          path
          path'
rewrite_cached_paths-Renamed old_dir old new_dir new k c path h fits = (
  rewrite_path (snprintf path_max (join old_dir old)) (snprintf path_max (join new_dir new)) path,
  path_of-rewrite_cached_paths old_dir old new_dir new k c ∙ ap (Option.map _) h,
  rewrite_path-Renamed (snprintf path_max (join old_dir old)) (snprintf path_max (join new_dir new))
      path fits,
)
