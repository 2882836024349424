-- ===== src/Inotify/Main/Keep.antt =====
-- The cache's invariant, for the whole program.
use linux_programming_interf.Common.{
  ℕ, ◌≡◌, Bool, ◌||◌, Option, none, some, List, [], ◌∷◌, ◌==◌, inl, inr, Bool-cases, Option-cases,
}
use mathlib.Core.Path.{subst}
use linux_programming_interf.Common.Int.{ℤ, minus_one}
use linux_programming_interf.Common.Text.{CString, until_null}
use linux_programming_interf.Inotify.Paths.{FilePath}
use linux_programming_interf.Inotify.Run.{
  Run, Holds, holds, succeeds, fails, aborts, strays, Holds-bind, Holds-if,
}
use linux_programming_interf.Inotify.Kernel.{Os}
use linux_programming_interf.Inotify.Tree.Keep.{IsKept, watch_dir-IsKept, reinitialize-IsKept}
use linux_programming_interf.Inotify.Tree.Zap.{zap_subtree-IsKept}
use linux_programming_interf.Inotify.Event.Cases.{Holds-any}
use linux_programming_interf.Inotify.Loop.{go_on, process_inotify_events}
use linux_programming_interf.Inotify.Loop.Ends.{process_inotify_events-IsKept}
use linux_programming_interf.Inotify.Command.{
  Session, Stdio, butlast, with_arg, verify, written, add_subtree, zap_path, write_list,
  rebuild_cache, perform, execute_line, execute_command,
}
use linux_programming_interf.Inotify.Startup.{copy_root_dir_paths}
use linux_programming_interf.Inotify.Main.{
  Turn, select_failed, selected, after_typed, after_ready, one_turn, main_loop, Start,
  settings_before, read_options, some_path, first_monitor, set_up, main,
}

abbrev pub KeptSession : {K : Type 0} → Session K → Type 0
KeptSession s = IsKept s.monitor

with_arg-Kept :
    {K : Type 0} (arg : Option CString) (next : CString → Run (Session K))
    → ((a : CString) → Holds KeptSession (next a))
    → Holds KeptSession (with_arg arg next)
with_arg-Kept none next h = strays
with_arg-Kept (some a) next h = h a

module _ {K : Type 0} (os : Os K) (stdio : Stdio K) where
  add_subtree-Kept :
      (s : Session K)
      → KeptSession s
      → (arg : FilePath) → Holds KeptSession (add_subtree os stdio s arg)
  unfolding add_subtree
  add_subtree-Kept s d arg =
      Holds-bind (watch_dir-IsKept os s.fd _ arg (zap_subtree-IsKept os s.fd s.monitor arg d))
        λ m k. holds k

  zap_path-Kept :
      (s : Session K)
      → KeptSession s
      → (arg : FilePath) → Holds KeptSession (zap_path os stdio s arg)
  unfolding zap_path
  zap_path-Kept s d arg = holds (zap_subtree-IsKept os s.fd s.monitor arg d)

  written-Kept :
      (s : Session K) (o : Option K) → KeptSession s → Holds KeptSession (written os stdio s o)
  written-Kept s none d = strays
  written-Kept s (some k) d = holds d

  write_list-Kept :
      (s : Session K)
      → KeptSession s
      → (arg : FilePath) → Holds KeptSession (write_list os stdio s arg)
  unfolding write_list
  write_list-Kept s d arg = written-Kept s _ d

  rebuild_cache-Kept : (s : Session K) → Holds KeptSession (rebuild_cache os stdio s)
  unfolding rebuild_cache
  rebuild_cache-Kept s = Holds-bind (reinitialize-IsKept os minus_one _) λ r k. holds k

  perform-Kept :
      (s : Session K) (cmd : ℕ) (arg : Option CString)
      → KeptSession s
      → Holds KeptSession (perform os stdio s cmd arg)
  unfolding perform
  perform-Kept s cmd arg d =
      Holds-if (cmd == b'a') (with_arg-Kept arg (add_subtree os stdio s) (add_subtree-Kept s d)) (
        Holds-if ((cmd == b'c') || (cmd == b'C'))
          (Holds-bind (Holds-any (verify os stdio s.monitor.os s.monitor.cache 0 0))
            λ counts k. holds d)
          (Holds-if (cmd == b'q') succeeds (
            Holds-if (cmd == b'v') (holds d) (
              Holds-if (cmd == b'd') (holds d) (
                Holds-if (cmd == b'x') (holds d) (
                  Holds-if (cmd == b'w')
                    (with_arg-Kept arg (write_list os stdio s) (write_list-Kept s d))
                    (Holds-if (cmd == b'z')
                      (with_arg-Kept arg (zap_path os stdio s) (zap_path-Kept s d))
                      (Holds-if (cmd == b'0') (rebuild_cache-Kept s) (holds d)))))))))

  execute_line-Kept :
      (s : Session K) (line : CString)
      → KeptSession s
      → Holds KeptSession (execute_line os stdio s line)
  unfolding execute_line
  execute_line-Kept s [] d = holds d
  execute_line-Kept s (cmd ∷ rest) d = perform-Kept s cmd (stdio.scan_word rest) d

  -- executeCommand() keeps the cache free of a descriptor in two slots, for every line that is typed,
  -- wherever it returns.
  pub execute_command-Kept :
      (s : Session K) (line : List ℕ)
      → KeptSession s
      → Holds KeptSession (execute_command os stdio s line)
  unfolding execute_command
  execute_command-Kept s [] d = fails
  execute_command-Kept s (c ∷ cs) d = execute_line-Kept s (until_null (butlast (c ∷ cs))) d

  -- A result that is kept, if there is one within the fuel.
  abbrev KeptResult : Option (Run (Session K)) → Type 0
  KeptResult none = Unit
  KeptResult (some r) = Holds KeptSession r

  go_on-Kept :
      {A : Type 0} {P : A → Type 0} (r : Run A) (next : A → Option (Run (Session K)))
      → Holds P r
      → ((a : A) → P a → KeptResult (next a))
      → KeptResult (go_on r next)
  unfolding go_on
  go_on-Kept r next (holds p) h = h _ p
  go_on-Kept r next succeeds h = succeeds
  go_on-Kept r next fails h = fails
  go_on-Kept r next aborts h = aborts
  go_on-Kept r next strays h = strays

  after_typed-Kept :
      (s : Session K) (typed : Option (List ℕ))
      → KeptSession s
      → Holds KeptSession (after_typed os stdio s typed)
  after_typed-Kept s none d = holds d
  after_typed-Kept s (some line) d = execute_command-Kept s line d

  after_ready-Kept :
      (fuel : ℕ) (is_ready : ℤ → Bool) (s : Session K)
      → KeptSession s
      → KeptResult (after_ready os stdio fuel is_ready s)
  unfolding after_ready
  after_ready-Kept fuel is_ready s d = elim (Bool-cases (is_ready s.fd)) [
    | inr idle ↦ rw (idle, after_ready) (holds d)
    | inl ready ↦ elim (Option-cases (process_inotify_events os fuel s.fd s.monitor)) [
      | inl out ↦ rw (ready, out, after_ready) tt
      | inr (r, ends) ↦
          rw (ready, ends, after_ready)
            (Holds-bind (process_inotify_events-IsKept os fuel s.fd s.monitor d ends)
              λ p k. holds k)
    ]
  ]

  one_turn-Kept :
      (fuel : ℕ) (s : Session K) (t : Turn)
      → KeptSession s
      → KeptResult (one_turn os stdio fuel s t)
  unfolding one_turn
  one_turn-Kept fuel s select_failed d = fails
  one_turn-Kept fuel s (selected typed is_ready) d =
      go_on-Kept (after_typed os stdio s typed) (after_ready os stdio fuel is_ready)
        (after_typed-Kept s typed d) λ s' d'. after_ready-Kept fuel is_ready s' d'

  main_loop-Kept :
      (fuel : ℕ) (s : Session K) (ts : List Turn)
      → KeptSession s
      → KeptResult (main_loop os stdio fuel s ts)
  unfolding main_loop
  main_loop-Kept fuel s [] d = holds d
  main_loop-Kept fuel s (t ∷ ts) d = elim (Option-cases (one_turn os stdio fuel s t)) [
    | inl out ↦ rw (out, main_loop) tt
    | inr (r, ends) ↦
        rw (ends, main_loop)
          (go_on-Kept r (λ s'. main_loop os stdio fuel s' ts)
            (subst KeptResult ends (one_turn-Kept fuel s t d))
            λ s' d'. main_loop-Kept fuel s' ts d')
  ]

  set_up-Kept : (start : Start K) → Holds KeptSession (set_up os stdio start)
  unfolding set_up
  set_up-Kept start =
      Holds-bind (Holds-any (read_options stdio.atoi start.opts settings_before)) λ t k₀.
        Holds-bind (Holds-any (some_path start.argv)) λ argv k₁.
          Holds-bind (Holds-any (copy_root_dir_paths start.lstat start.lstat_again argv))
            λ roots k₂.
              Holds-bind (reinitialize-IsKept os minus_one (first_monitor start.outside t roots))
                λ r k. holds k

  -- The program, from its options and the checks of its pathnames through any number of commands
  -- and batches of events, whatever the kernel, nftw() and the C library answer: wherever its loop
  -- stands, no watch descriptor is in two slots of the cache.
  pub main-IsKept :
      (fuel : ℕ) (start : Start K) (turns : List Turn) {r : Run (Session K)}
      → main os stdio fuel start turns ≡ some r
      → Holds (λ s. IsKept s.monitor) r
  unfolding main
  main-IsKept fuel start turns e = subst KeptResult e (
      go_on-Kept (set_up os stdio start) (λ s. main_loop os stdio fuel s turns) (set_up-Kept start)
        λ s d. main_loop-Kept fuel s turns d)
