-- ===== src/Inotify/Event/Advance.antt =====
-- How far one call of processNextInotifyEvent() gets in the buffer.
use linux_programming_interf.Common.{
  ℕ, ◌+◌, ◌≡◌, refl, Bool, true, false, ◌&&◌, Option, none, some, List, [], ◌∷◌, ltb, ◌==◌, arith,
  ◌<◌, ◌⊎◌, inl, inr,
}
use linux_programming_interf.Common.Int.{ℤ}
use linux_programming_interf.Inotify.Paths.{FilePath, path_max, name_max, join, snprintf}
use linux_programming_interf.Inotify.Run.{Holds, holds, strays, Holds-bind, Holds-if}
use linux_programming_interf.Inotify.Cache.{find_watch, pathname_to_cache_slot}
use linux_programming_interf.Inotify.Kernel.{Os, Event}
use linux_programming_interf.Inotify.Roots.{is_root_dir_path, zap_root_dir_path}
use linux_programming_interf.Inotify.Tree.{Monitor, in_moved_to, zap_subtree, reinitialize}
use linux_programming_interf.Inotify.Event.{
  Processed, Branch, has_flag, event_len, find_watch_checked, slot_path, discard_rest,
  watch_unless_cached, dir_created, zap_if_root, dir_deleted, zap_or_discard, moved_out, renamed,
  moved_from_before, moved_from_last, dir_moved_from, overflowed, unmounted, root_moved, self_moved,
  process_next_inotify_event,
}
use linux_programming_interf.Inotify.Event.Cases.{outcome, Holds-any, EachBranch, process-outcome}

abbrev pub Progress : {K : Type 0} → ℤ → Monitor K → Bool → Processed K → Type 0
Progress fd m first_try p =
    ((n : ℕ) × (p.advance ≡ some n) × (0 < n))
    ⊎ (p.advance ≡ none) × (first_try ≡ true) × (p.monitor ≡ m) × (p.fd ≡ fd)

abbrev Advances : {K : Type 0} → ℤ → Monitor K → Bool → Branch K → Type 0
Advances fd m first_try b = Progress fd m first_try (outcome b)

module _ {K : Type 0} (os : Os K) (fd : ℤ) (m : Monitor K) (first_try : Bool) where
  discard_rest-Advances :
      (fd' : ℤ) (m' : Monitor K) → Holds (Advances fd m first_try) (discard_rest os fd' m')
  unfolding discard_rest
  discard_rest-Advances fd' m' =
      Holds-bind (Holds-any (reinitialize os fd' m')) λ a _. holds (inl (27200, refl, omega arith))

  advanced : (ev : Event) → (n : ℕ) × (some (event_len ev) ≡ some n) × (0 < n)
  advanced ev = (event_len ev, refl, omega arith)

  zap_or_discard-Advances :
      (ev : Event) (z : Option ℕ × Monitor K)
      → Holds (Advances fd m first_try) (zap_or_discard os (event_len ev) fd z)
  unfolding zap_or_discard
  zap_or_discard-Advances ev (some n, m') = holds (inl (advanced ev))
  zap_or_discard-Advances ev (none, m') = discard_rest-Advances fd m'

  dir_created-Advances :
      (slot : Option ℕ) (ev : Event) → Holds (Advances fd m first_try) (dir_created os fd m slot ev)
  unfolding dir_created
  dir_created-Advances slot ev = Holds-bind (Holds-any (slot_path m.cache slot)) λ path _.
      let full_path : FilePath = snprintf (path_max + name_max) (join path ev.name) in
      Holds-bind
        (Holds-any
          (watch_unless_cached os fd m full_path (pathname_to_cache_slot full_path m.cache)))
        λ m' _. holds (inl (advanced ev))

  dir_deleted-Advances :
      (slot : Option ℕ) (ev : Event) → Holds (Advances fd m first_try) (dir_deleted os fd m slot ev)
  unfolding dir_deleted
  dir_deleted-Advances slot ev = Holds-bind (Holds-any (slot_path m.cache slot)) λ path _.
      Holds-bind (Holds-any (zap_if_root os (is_root_dir_path path m.roots) path m))
        λ m' _. holds (inl (advanced ev))

  moved_out-Advances :
      (slot : Option ℕ) (ev : Event) → Holds (Advances fd m first_try) (moved_out os fd m slot ev)
  unfolding moved_out
  moved_out-Advances slot ev = Holds-bind (Holds-any (slot_path m.cache slot)) λ path _.
      zap_or_discard-Advances ev
        (zap_subtree os fd m (snprintf (path_max + name_max) (join path ev.name)))

  renamed-Advances :
      (slot : Option ℕ) (ev next : Event) (o : Option ℕ)
      → Holds (Advances fd m first_try) (renamed os fd m slot ev next o)
  unfolding renamed
  renamed-Advances slot ev next none = discard_rest-Advances fd m
  renamed-Advances slot ev next (some j) = Holds-bind (Holds-any (slot_path m.cache slot)) λ path _.
      Holds-bind (Holds-any (slot_path m.cache (some j)))
        λ next_path _. holds (inl (event_len ev + event_len next, refl, omega arith))

  root_moved-Advances :
      (b : Bool) (path : FilePath) (ev : Event)
      → Holds (Advances fd m first_try) (root_moved os b fd m path ev)
  unfolding root_moved
  root_moved-Advances false path ev = holds (inl (advanced ev))
  root_moved-Advances true path ev =
      Holds-bind (Holds-any (zap_root_dir_path path m.roots))
        λ r _. zap_or_discard-Advances ev (zap_subtree os fd (record m { roots = r }) path)

  self_moved-Advances :
      (slot : Option ℕ) (ev : Event) → Holds (Advances fd m first_try) (self_moved os fd m slot ev)
  unfolding self_moved
  self_moved-Advances slot ev =
      Holds-bind (Holds-any (slot_path m.cache slot))
        λ path _. root_moved-Advances (is_root_dir_path path m.roots) path ev

  overflowed-Advances : Holds (Advances fd m first_try) (overflowed os fd m)
  unfolding overflowed
  overflowed-Advances =
      Holds-bind (Holds-any (reinitialize os fd (record m { overflow_cnt = m.overflow_cnt + 1 })))
        λ a _. holds (inl (27200, refl, omega arith))

  unmounted-Advances :
      (slot : Option ℕ) (ev : Event) → Holds (Advances fd m first_try) (unmounted os fd m slot ev)
  unfolding unmounted
  unmounted-Advances slot ev =
      Holds-bind (Holds-any (slot_path m.cache slot)) λ path _. holds (inl (advanced ev))

-- Split on `firstTry`, which the branch for IN_MOVED_FROM depends on.
module _ {K : Type 0} (os : Os K) (fd : ℤ) (m : Monitor K) where
  dir_moved_from-Advances :
      (inside first_try : Bool) (slot : Option ℕ) (ev : Event) (rest : List Event)
      → Holds (Advances fd m first_try) (dir_moved_from os inside first_try fd m slot ev rest)
  unfolding dir_moved_from moved_from_before moved_from_last
  dir_moved_from-Advances true first_try slot ev [] = strays
  dir_moved_from-Advances true first_try slot ev (next ∷ rest) =
      Holds-if (has_flag next.mask in_moved_to && next.cookie == ev.cookie)
        (Holds-bind
          (Holds-any (find_watch_checked m.abort_on_cache_problem (find_watch next.wd m.cache)))
          λ o _. renamed-Advances os fd m first_try slot ev next o)
        (moved_out-Advances os fd m first_try slot ev)
  dir_moved_from-Advances false true slot ev rest = holds (inr (refl, refl, refl, refl))
  dir_moved_from-Advances false false slot ev rest = moved_out-Advances os fd m false slot ev

  branches-Advances :
      (slot : Option ℕ) (ev : Event) (rest : List Event) (size : ℕ) (first_try : Bool)
      → EachBranch os (Advances fd m first_try) fd m slot ev rest size first_try
  branches-Advances slot ev rest size first_try = record {
    created = dir_created-Advances os fd m first_try slot ev;
    deleted = dir_deleted-Advances os fd m first_try slot ev;
    moved = dir_moved_from-Advances (ltb (event_len ev) size) first_try slot ev rest;
    overflow = overflowed-Advances os fd m first_try;
    unmount = unmounted-Advances os fd m first_try slot ev;
    self = self_moved-Advances os fd m first_try slot ev;
    plain = inl (advanced os fd m first_try ev);
  }

  -- Wherever it returns a value, processNextInotifyEvent() either consumes a positive number of bytes,
  -- or returns -1 with the state and the descriptor as they were; the latter only on the first try.
  pub process_next_inotify_event-Progress :
      (events : List Event) (size : ℕ) (first_try : Bool)
      → Holds (Progress fd m first_try) (process_next_inotify_event os fd m events size first_try)
  process_next_inotify_event-Progress events size first_try =
      process-outcome os (Progress fd m first_try) fd m events size first_try
        (discard_rest-Advances os fd m first_try fd m)
        (λ slot ev rest. branches-Advances slot ev rest size first_try)
