-- ===== src/Inotify/Tree/Zap.antt =====
-- zapSubtree(): which slots it empties, and what is left of the map from descriptors to pathnames.
use linux_programming_interf.Common.{
  ℕ, suc, ◌+◌, ◌≡◌, refl, ap, ◌∙◌, Bool, false, ◌&&◌, Option, none, some, [], ◌∷◌, map, arith,
  if◌then◌else◌,
}
use linux_programming_interf.Common.Int.{ℤ, pos, negsuc, is_nonneg}
use linux_programming_interf.Inotify.Paths.{FilePath, is_under}
use linux_programming_interf.Inotify.Cache.{Watch, Cache, empty_slot}
use linux_programming_interf.Inotify.Cache.Distinct.{occurs, Distinct}
use linux_programming_interf.Inotify.Cache.Lookup.{path_of, path_of-none}
use linux_programming_interf.Inotify.Kernel.{Os}
use linux_programming_interf.Inotify.Tree.{Monitor, zap_slots, zap_subtree}
use linux_programming_interf.Inotify.Tree.Keep.{IsKept}

-- A slot in use whose pathname is under `pn`.
abbrev pub is_victim : FilePath → Watch → Bool
is_victim pn w = is_nonneg w.wd && is_under pn w.path

abbrev pub cleared : FilePath → Watch → Watch
cleared pn w = if is_victim pn w then empty_slot else w

abbrev pub victims : FilePath → Cache → ℕ
victims pn [] = 0
victims pn (w ∷ ws) = let rest = victims pn ws in if is_victim pn w then suc rest else rest

module _ {K : Type 0} (os : Os K) (ifd : ℤ) (pn : FilePath) where
  zap_slots-cleared :
      (c : Cache) (cnt n : ℕ) (k : K)
      → (zap_slots os ifd pn cnt k c).0 ≡ some n
      → ((zap_slots os ifd pn cnt k c).1 ≡ map (cleared pn) c) × (n ≡ cnt + victims pn c)
  unfolding zap_slots
  zap_slots-cleared [] cnt n k h = ground arith
  zap_slots-cleared (w ∷ ws) cnt n k h = ground (
    arith,
    zap_slots-cleared ws cnt n k,
    zap_slots-cleared ws (cnt + 1) n (os.rm_watch k ifd w.wd).1,
  )

  occurs-zap_slots :
      (c : Cache) (cnt : ℕ) (k : K) (wd : ℕ)
      → occurs (pos wd) c ≡ false
      → occurs (pos wd) (zap_slots os ifd pn cnt k c).1 ≡ false
  unfolding zap_slots
  occurs-zap_slots [] cnt k wd h = refl
  occurs-zap_slots (w ∷ ws) cnt k wd h = ground (
    arith,
    occurs-zap_slots ws cnt k wd,
    occurs-zap_slots ws (cnt + 1) (os.rm_watch k ifd w.wd).1 wd,
  )

  live_occurs-zap_slots :
      (a : ℤ) (c : Cache) (cnt : ℕ) (k : K)
      → (is_nonneg a && occurs a c) ≡ false
      → (is_nonneg a && occurs a (zap_slots os ifd pn cnt k c).1) ≡ false
  live_occurs-zap_slots (pos n) c cnt k h = occurs-zap_slots c cnt k n h
  live_occurs-zap_slots (negsuc n) c cnt k h = refl

  pub zap_slots-Distinct :
      (c : Cache) (cnt : ℕ) (k : K) → Distinct c → Distinct (zap_slots os ifd pn cnt k c).1
  unfolding zap_slots
  zap_slots-Distinct [] cnt k d = tt
  zap_slots-Distinct (w ∷ ws) cnt k d =
      let k' : K = (os.rm_watch k ifd w.wd).1 in
      ground (
        arith,
        zap_slots-Distinct ws cnt k,
        zap_slots-Distinct ws (cnt + 1) k',
        live_occurs-zap_slots w.wd ws cnt k,
        live_occurs-zap_slots w.wd ws (cnt + 1) k',
      )

abbrev pub unless_under : FilePath → Option FilePath → Option FilePath
unless_under pn none = none
unless_under pn (some p) = if is_under pn p then none else some p

path_of-cleared :
    (pn : FilePath) (c : Cache) (k : ℕ)
    → Distinct c
    → path_of k (map (cleared pn) c) ≡ unless_under pn (path_of k c)
unfolding path_of
path_of-cleared pn [] k d = refl
path_of-cleared pn (w ∷ ws) k d = ground (arith, path_of-cleared pn ws k, path_of-none k ws)

module _ {K : Type 0} (os : Os K) where
  -- zapSubtree(), from a cache with no descriptor twice. If every inotify_rm_watch() succeeds, it
  -- returns the number of slots in use whose pathname is `path` or below it, it takes the
  -- descriptors of these out of the cache, and all other descriptors keep their pathnames.
  pub zap_subtree-path_of :
      (ifd : ℤ) (m : Monitor K) (path : FilePath) {n : ℕ}
      → IsKept m
      → (zap_subtree os ifd m path).0 ≡ some n
      → (n ≡ victims path m.cache)
        × ((k : ℕ)
            → path_of k (zap_subtree os ifd m path).1.cache ≡ unless_under path (path_of k m.cache))
  unfolding zap_subtree
  zap_subtree-path_of ifd m path {n} d h =
      let (e, f) = zap_slots-cleared os ifd path m.cache 0 n m.os h in
      (omega arith, λ k. ap (path_of k) e ∙ path_of-cleared path m.cache k d)

  -- zapSubtree() never leaves a descriptor in two slots, also where inotify_rm_watch() fails half
  -- way.
  pub zap_subtree-IsKept :
      (ifd : ℤ) (m : Monitor K) (path : FilePath) → IsKept m → IsKept (zap_subtree os ifd m path).1
  unfolding zap_subtree
  zap_subtree-IsKept ifd m path d = zap_slots-Distinct os ifd path m.cache 0 m.os d
