-- ===== src/Inotify/Cache.antt =====
-- The watch list cache of inotify_dtree.c: `wlCache[0 .. cacheSize)` as a list of slots, whose length
-- is `cacheSize`.
pub mod Distinct
pub mod Lookup
use mathlib.Core.Bool.{true, false, ◌&&◌}
use linux_programming_interf.Common.{
  ℕ, Bool, Option, none, some, List, [], ◌∷◌, ◌++◌, map, ◌+◌, if◌then◌else◌, length, set, replicate,
}
use linux_programming_interf.Common.Int.{ℤ, minus_one, ◌==ℤ◌, is_nonneg}
use linux_programming_interf.Inotify.Paths.{
  FilePath, path_max, join, snprintf, strncpy, strcmp_eq, rewrite_path,
}

-- `struct watch`: `wd` is -1 in an unused slot.
pub record Watch : Type 0 where
  pub wd : ℤ
  pub path : FilePath

abbrev pub Cache : Type 0
Cache = List Watch

abbrev pub empty_slot : Watch
empty_slot = record { wd = minus_one; path = [] }

-- freeCache()
unfoldable pub free_cache : Cache → Cache
free_cache c = []

-- `for (j = 0; j < cacheSize; j++) if (test) return j; return -1;`
unfoldable pub first_slot : (Watch → Bool) → ℕ → Cache → Option ℕ
first_slot test j [] = none
first_slot test j (w ∷ ws) =
    let rest = first_slot test (j + 1) ws in if test w then some j else rest

-- findWatch(): `none` is -1.
unfoldable pub find_watch : ℤ → Cache → Option ℕ
unfolding first_slot
find_watch wd c = first_slot (λ w. w.wd ==ℤ wd) 0 c

-- markCacheSlotEmpty()
unfoldable pub mark_cache_slot_empty : Cache → ℕ → Cache
mark_cache_slot_empty c slot = set c slot empty_slot

abbrev pub alloc_incr : ℕ
alloc_incr = 200

-- The part of findEmptyCacheSlot() that resizes the cache: the new slots are all marked empty.
unfoldable pub resize : Cache → Cache
resize c = c ++ replicate alloc_incr empty_slot

-- findEmptyCacheSlot(), where realloc() succeeds.
unfoldable pub find_empty_cache_slot : Cache → ℕ × Cache
unfolding first_slot resize
find_empty_cache_slot c = elim (first_slot (λ w. w.wd ==ℤ minus_one) 0 c) [
  | some j ↦ (j, c)
  | none ↦ (length c, resize c)
]

-- Whether findEmptyCacheSlot() has to call realloc().
unfoldable pub is_full : Cache → Bool
unfolding first_slot
is_full c = elim (first_slot (λ w. w.wd ==ℤ minus_one) 0 c) [ some j ↦ false | none ↦ true ]

-- addWatchToCache()
unfoldable pub add_watch_to_cache : ℤ → FilePath → Cache → ℕ × Cache
unfolding find_empty_cache_slot
add_watch_to_cache wd pathname c =
    let (slot, c') = find_empty_cache_slot c in
    (slot, set c' slot (record { wd = wd; path = strncpy pathname path_max }))

-- pathnameToCacheSlot()
unfoldable pub pathname_to_cache_slot : FilePath → Cache → Option ℕ
unfolding first_slot
pathname_to_cache_slot pathname c =
    first_slot (λ w. is_nonneg w.wd && strcmp_eq w.path pathname) 0 c

abbrev pub rewrite_slot : FilePath → FilePath → Watch → Watch
rewrite_slot full_path new_prefix w = record w { path = rewrite_path full_path new_prefix w.path }

-- rewriteCachedPaths()
unfoldable pub rewrite_cached_paths : FilePath → List ℕ → FilePath → List ℕ → Cache → Cache
unfolding rewrite_path snprintf
rewrite_cached_paths old_path_prefix old_name new_path_prefix new_name c =
    let full_path = snprintf path_max (join old_path_prefix old_name) in
    let new_prefix = snprintf path_max (join new_path_prefix new_name) in
    map (rewrite_slot full_path new_prefix) c
