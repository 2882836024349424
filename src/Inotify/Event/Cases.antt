-- ===== src/Inotify/Event/Cases.antt =====
-- A property of what processNextInotifyEvent() returns, from the property of each branch.
use linux_programming_interf.Common.{
  ℕ, ◌+◌, Bool, ◌&&◌, not, Option, none, some, List, [], ◌∷◌, ltb,
}
use linux_programming_interf.Common.Int.{ℤ, minus_one, ◌==ℤ◌}
use linux_programming_interf.Inotify.Run.{
  Run, ok, exit_success, exit_failure, aborted, undefined, Holds, holds, succeeds, fails, aborts,
  strays, Holds-bind, Holds-if,
}
use linux_programming_interf.Inotify.Cache.{find_watch}
use linux_programming_interf.Inotify.Kernel.{Os, Event}
use linux_programming_interf.Inotify.Tree.{
  Monitor, in_moved_from, in_moved_to, in_create, in_delete_self, in_move_self,
  check_cache_consistency,
}
use linux_programming_interf.Inotify.Event.{
  Processed, Branch, returns, goes_on, has_flag, has_all, in_isdir, in_q_overflow, in_unmount,
  in_ignored, event_len, find_watch_checked, carry_on, discard_rest, dir_created, dir_deleted,
  dir_moved_from, overflowed, unmounted, self_moved, dispatch, conclude, process_checked,
  process_next_inotify_event,
}

-- The value that a branch carries.
abbrev pub outcome : {K : Type 0} → Branch K → Processed K
outcome (returns p) = p
outcome (goes_on p) = p

pub Holds-any : {A : Type 0} (r : Run A) → Holds (λ _. Unit {0}) r
Holds-any (ok a) = holds tt
Holds-any exit_success = succeeds
Holds-any exit_failure = fails
Holds-any aborted = aborts
Holds-any undefined = strays

module _ {K : Type 0} (os : Os K) (P : Branch K → Type 0) where
  -- `P` holds of what each branch gives.
  pub record EachBranch (fd : ℤ) (m : Monitor K) (slot : Option ℕ) (ev : Event) (rest : List Event)
      (size : ℕ) (first_try : Bool) : Type 0 where
    pub created : Holds P (dir_created os fd m slot ev)
    pub deleted : Holds P (dir_deleted os fd m slot ev)
    pub moved : Holds P (dir_moved_from os (ltb (event_len ev) size) first_try fd m slot ev rest)
    pub overflow : Holds P (overflowed os fd m)
    pub unmount : Holds P (unmounted os fd m slot ev)
    pub self : Holds P (self_moved os fd m slot ev)
    pub plain : P (carry_on os (event_len ev) fd m)

  dispatch-each :
      (fd : ℤ) (m : Monitor K) (slot : Option ℕ) (ev : Event) (rest : List Event) (size : ℕ)
      (first_try : Bool)
      → EachBranch fd m slot ev rest size first_try
      → Holds P (dispatch os fd m slot ev rest size first_try)
  unfolding dispatch
  dispatch-each fd m slot ev rest size first_try e =
      Holds-if (has_flag ev.mask in_isdir && has_flag ev.mask (in_create + in_moved_to)) e.created (
        Holds-if (has_flag ev.mask in_delete_self) e.deleted (
          Holds-if (has_all ev.mask (in_moved_from + in_isdir)) e.moved (
            Holds-if (has_flag ev.mask in_q_overflow) e.overflow (
              Holds-if (has_flag ev.mask in_unmount) e.unmount
                (Holds-if (has_flag ev.mask in_move_self) e.self (holds e.plain))))))

module _ {K : Type 0} (os : Os K) (P : Processed K → Type 0) where
  conclude-outcome : (b : Branch K) → P (outcome b) → Holds P (conclude os b)
  unfolding conclude
  conclude-outcome (returns p) d = holds d
  conclude-outcome (goes_on p) d =
      Holds-if p.monitor.check_cache
        (Holds-bind (Holds-any (check_cache_consistency os p.monitor.os p.monitor.cache))
          λ _ _. holds d)
        (holds d)

  process_checked-outcome :
      (fd : ℤ) (m : Monitor K) (slot : Option ℕ) (ev : Event) (rest : List Event) (size : ℕ)
      (first_try : Bool)
      → Holds (λ b. P (outcome b)) (discard_rest os fd m)
      → EachBranch os (λ b. P (outcome b)) fd m slot ev rest size first_try
      → Holds P (process_checked os fd m slot ev rest size first_try)
  unfolding process_checked
  process_checked-outcome fd m none ev rest size first_try h e = Holds-bind h conclude-outcome
  process_checked-outcome fd m (some j) ev rest size first_try h e =
      Holds-bind (dispatch-each os _ fd m (some j) ev rest size first_try e) conclude-outcome

  pub process-outcome :
      (fd : ℤ) (m : Monitor K) (events : List Event) (size : ℕ) (first_try : Bool)
      → Holds (λ b. P (outcome b)) (discard_rest os fd m)
      → ((slot : Option ℕ) (ev : Event) (rest : List Event)
          → EachBranch os (λ b. P (outcome b)) fd m slot ev rest size first_try)
      → Holds P (process_next_inotify_event os fd m events size first_try)
  unfolding process_next_inotify_event
  process-outcome fd m [] size first_try h each = strays
  process-outcome fd m (ev ∷ rest) size first_try h each =
      Holds-if (not (ev.wd ==ℤ minus_one) && not (has_flag ev.mask in_ignored))
        (Holds-bind
          (Holds-any (find_watch_checked m.abort_on_cache_problem (find_watch ev.wd m.cache)))
          λ slot _. process_checked-outcome fd m slot ev rest size first_try h (each slot ev rest))
        (Holds-bind (dispatch-each os _ fd m none ev rest size first_try (each none ev rest))
          conclude-outcome)
