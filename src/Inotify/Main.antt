-- ===== src/Inotify/Main.antt =====
-- The options of inotify_dtree.c, and its `main` with the loop over commands and events.
pub mod Keep
mod Tests
use linux_programming_interf.Common.{
  ℕ, ◌+◌, Bool, true, false, ◌&&◌, ◌||◌, not, Option, none, some, List, [], ◌∷◌, ◌==◌,
  if◌then◌else◌,
}
use linux_programming_interf.Common.Int.{ℤ, pos, minus_one, ◌==ℤ◌, is_nonneg}
use linux_programming_interf.Common.Text.{CString}
use linux_programming_interf.Inotify.Paths.{FilePath}
use linux_programming_interf.Inotify.Run.{
  Run, ok, exit_success, exit_failure, aborted, undefined, ◌>>=◌,
}
use linux_programming_interf.Inotify.Cache.{Watch, Cache}
use linux_programming_interf.Inotify.Kernel.{Os, LstatResult, missing, directory, other_file}
use linux_programming_interf.Inotify.Roots.{Roots}
use linux_programming_interf.Inotify.Tree.{Monitor, watch_dir, zap_subtree, reinitialize}
use linux_programming_interf.Inotify.Loop.{go_on, process_inotify_events}
use linux_programming_interf.Inotify.Startup.{FileId, copy_root_dir_paths}
use linux_programming_interf.Inotify.Command.{Session, Stdio, execute_command}

-- One pass of the loop in `main`: whether select() failed, what is typed, if standard input is ready,
-- and the descriptors that are ready.
pub data Turn : Type 0 where
  select_failed : Turn
  selected : Option (List ℕ) → (ℤ → Bool) → Turn

abbrev pub with_events : {K : Type 0} → Session K → Run (ℤ × Monitor K) → Run (Session K)
with_events s r = r >>= λ p. ok (record s { fd = p.0; monitor = p.1 })

module _ {K : Type 0} (os : Os K) (stdio : Stdio K) where
  abbrev pub after_typed : Session K → Option (List ℕ) → Run (Session K)
  after_typed s none = ok s
  after_typed s (some line) = execute_command os stdio s line

  -- The events, if the descriptor, which a command may have changed, is ready.
  unfoldable pub after_ready : ℕ → (ℤ → Bool) → Session K → Option (Run (Session K))
  unfolding process_inotify_events
  after_ready fuel is_ready s =
      if is_ready s.fd
      then elim (process_inotify_events os fuel s.fd s.monitor) [
        | none ↦ none
        | some r ↦ some (with_events s r)
      ]
      else some (ok s)

  unfoldable pub one_turn : ℕ → Session K → Turn → Option (Run (Session K))
  unfolding execute_command after_ready go_on
  one_turn fuel s select_failed = some exit_failure
  one_turn fuel s (selected typed is_ready) =
      go_on (after_typed s typed) (after_ready fuel is_ready)

  -- The loop of `main`; `none` means that a round of events did not end within the fuel.
  unfoldable pub main_loop : ℕ → Session K → List Turn → Option (Run (Session K))
  unfolding one_turn go_on
  main_loop fuel s [] = some (ok s)
  main_loop fuel s (t ∷ ts) = elim (one_turn fuel s t) [
    | none ↦ none
    | some r ↦ go_on r (λ s'. main_loop fuel s' ts)
  ]

-- What the options set; `getopt` gives them in order.
pub data Opt : Type 0 where
  opt_a opt_x opt_d opt_other : Opt
  opt_v opt_b : CString → Opt
  opt_l : Bool → Opt

-- The buffer's size only bounds what read() answers.
pub record Settings : Type 0 where
  pub verbose : ℤ
  pub check : Bool
  pub dump : Bool
  pub abort_on_problem : Bool
  pub buffer_size : ℤ

abbrev pub settings_before : Settings
settings_before = record {
  verbose = pos 0;
  check = false;
  dump = false;
  abort_on_problem = false;
  buffer_size = pos 0;
}

-- The option loop of `main`: -l says whether the log file could be opened.
unfoldable pub read_options : (CString → ℤ) → List Opt → Settings → Run Settings
read_options atoi [] t = ok t
read_options atoi (opt_a ∷ opts) t = read_options atoi opts (record t { abort_on_problem = true })
read_options atoi (opt_x ∷ opts) t = read_options atoi opts (record t { check = true })
read_options atoi (opt_d ∷ opts) t = read_options atoi opts (record t { dump = true })
read_options atoi (opt_v n ∷ opts) t = read_options atoi opts (record t { verbose = atoi n })
read_options atoi (opt_b n ∷ opts) t = read_options atoi opts (record t { buffer_size = atoi n })
read_options atoi (opt_l true ∷ opts) t = read_options atoi opts t
read_options atoi (opt_l false ∷ opts) t = exit_failure
read_options atoi (opt_other ∷ opts) t = exit_failure

-- What stands outside the program when it begins: the two rounds of answers of lstat(), and `K`.
pub record Start (K : Type 0) : Type 0 where
  pub opts : List Opt
  pub argv : List FilePath
  pub lstat : FilePath → LstatResult
  pub lstat_again : FilePath → Option FileId
  pub outside : K

abbrev pub first_monitor : {K : Type 0} → K → Settings → Roots → Monitor K
first_monitor k t roots = record {
  cache = [];
  roots = roots;
  dir_cnt = 0;
  reinit_cnt = 0;
  overflow_cnt = 0;
  read_cnt = 0;
  check_cache = t.check;
  abort_on_cache_problem = t.abort_on_problem;
  os = k;
}

-- `if (optind >= argc) usageError(argv[0]);`
abbrev pub some_path : List FilePath → Run (List FilePath)
some_path [] = exit_failure
some_path (p ∷ ps) = ok (p ∷ ps)

module _ {K : Type 0} (os : Os K) (stdio : Stdio K) where
  -- `main`, up to its loop.
  unfoldable pub set_up : Start K → Run (Session K)
  unfolding read_options copy_root_dir_paths reinitialize
  set_up start = do
    t ← read_options stdio.atoi start.opts settings_before
    argv ← some_path start.argv
    roots ← copy_root_dir_paths start.lstat start.lstat_again argv
    (fd, m) ← reinitialize os minus_one (first_monitor start.outside t roots)
    ok (record { fd = fd; monitor = m; verbose_mask = t.verbose; dump_cache = t.dump })

  unfoldable pub main : ℕ → Start K → List Turn → Option (Run (Session K))
  unfolding set_up main_loop go_on
  main fuel start turns = go_on (set_up start) (λ s. main_loop os stdio fuel s turns)
