-- ===== src/Inotify/Command.antt =====
-- executeCommand() of inotify_dtree.c. Messages, the log and the dump of the cache are left out.
use linux_programming_interf.Common.{
  ℕ, ◌+◌, Bool, ◌||◌, not, Option, none, some, List, [], ◌∷◌, ◌==◌, if◌then◌else◌,
}
use linux_programming_interf.Common.Int.{ℤ, pos, minus_one, ◌==ℤ◌, is_nonneg}
use linux_programming_interf.Common.Text.{CString, until_null}
use linux_programming_interf.Inotify.Paths.{FilePath}
use linux_programming_interf.Inotify.Run.{Run, ok, exit_success, exit_failure, undefined, ◌>>=◌}
use linux_programming_interf.Inotify.Cache.{Cache}
use linux_programming_interf.Inotify.Kernel.{Os, missing, directory, other_file}
use linux_programming_interf.Inotify.Tree.{Monitor, watch_dir, zap_subtree, reinitialize}

-- `inotifyFd` and the static variables.
pub record Session (K : Type 0) : Type 0 where
  pub fd : ℤ
  pub monitor : Monitor K
  pub verbose_mask : ℤ
  pub dump_cache : Bool

-- What the commands need of the C library: the word that "%s" reads, atoi(), and a file that is
-- opened, filled with lines and closed, with `none` where fopen() fails.
pub record Stdio (K : Type 0) : Type 0 where
  pub scan_word : CString → Option CString
  pub atoi : CString → ℤ
  pub write_file : K → FilePath → List FilePath → Option K

abbrev pub butlast : List ℕ → List ℕ
butlast [] = []
butlast (c ∷ []) = []
butlast (c ∷ d ∷ cs) = c ∷ butlast (d ∷ cs)

-- `arg`, which is set only where a second word was read.
abbrev pub with_arg : {K : Type 0} → Option CString → (CString → Run (Session K)) → Run (Session K)
with_arg none next = undefined
with_arg (some arg) next = next arg

-- The pathnames of the slots in use.
abbrev pub cached_paths : Cache → List FilePath
cached_paths [] = []
cached_paths (w ∷ ws) = let rest = cached_paths ws in if is_nonneg w.wd then w.path ∷ rest else rest

-- `verboseMask = !verboseMask`
abbrev pub toggled : ℤ → ℤ
toggled mask = if mask ==ℤ pos 0 then pos 1 else pos 0

module _ {K : Type 0} (os : Os K) (stdio : Stdio K) where
  -- 'c' and 'C': the entries verified, and the failures.
  unfoldable pub verify : K → Cache → ℕ → ℕ → Run (ℕ × ℕ)
  verify k [] cnt failures = ok (cnt, failures)
  verify k (w ∷ ws) cnt failures =
      let failed = verify k ws cnt (failures + 1) in
      let verified = verify k ws (cnt + 1) failures in
      let skipped = verify k ws cnt failures in
      if is_nonneg w.wd
      then elim (os.lstat k w.path) [
        | missing ↦ failed
        | other_file ↦ exit_failure
        | directory ↦ verified
      ]
      else skipped

  -- 'a'
  unfoldable pub add_subtree : Session K → FilePath → Run (Session K)
  add_subtree s arg =
      let zapped : Option ℕ × Monitor K = zap_subtree os s.fd s.monitor arg in
      watch_dir os s.fd zapped.1 arg >>= λ m. ok (record s { monitor = m })

  -- 'z'
  unfoldable pub zap_path : Session K → FilePath → Run (Session K)
  zap_path s arg =
      let zapped : Option ℕ × Monitor K = zap_subtree os s.fd s.monitor arg in
      ok (record s { monitor = zapped.1 })

  abbrev pub written : Session K → Option K → Run (Session K)
  written s none = undefined
  written s (some k) =
      let m : Monitor K = s.monitor in ok (record s { monitor = record m { os = k } })

  -- 'w': after a failed fopen() the null pointer is used.
  unfoldable pub write_list : Session K → FilePath → Run (Session K)
  write_list s arg = written s (stdio.write_file s.monitor.os arg (cached_paths s.monitor.cache))

  -- '0'
  unfoldable pub rebuild_cache : Session K → Run (Session K)
  rebuild_cache s =
      let m : Monitor K = s.monitor in
      reinitialize os minus_one (record m { os = os.close m.os s.fd }) >>= λ r.
      ok (record s { fd = r.0; monitor = r.1 })

  abbrev pub new_mask : ℤ → Option CString → ℤ
  new_mask mask none = toggled mask
  new_mask mask (some arg) = stdio.atoi arg

  -- The switch on the command.
  unfoldable pub perform : Session K → ℕ → Option CString → Run (Session K)
  unfolding verify add_subtree zap_path write_list rebuild_cache
  perform s cmd arg =
      let m : Monitor K = s.monitor in
      if cmd == b'a'
      then with_arg arg (add_subtree s)
      else if (cmd == b'c') || (cmd == b'C')
      then (verify m.os m.cache 0 0 >>= λ counts. ok s)
      else if cmd == b'q'
      then exit_success
      else if cmd == b'v'
      then ok (record s { verbose_mask = new_mask s.verbose_mask arg })
      else if cmd == b'd'
      then ok (record s { dump_cache = not s.dump_cache })
      else if cmd == b'x'
      then ok (record s { monitor = record m { check_cache = not m.check_cache } })
      else if cmd == b'w'
      then with_arg arg (write_list s)
      else if cmd == b'z'
      then with_arg arg (zap_path s)
      else if cmd == b'0'
      then rebuild_cache s
      else ok s

  unfoldable pub execute_line : Session K → CString → Run (Session K)
  unfolding perform
  execute_line s [] = ok s
  execute_line s (cmd ∷ rest) = perform s cmd (stdio.scan_word rest)

  -- executeCommand(), with the bytes that read() gives: none where its result is 0 or -1.
  unfoldable pub execute_command : Session K → List ℕ → Run (Session K)
  unfolding execute_line
  execute_command s [] = exit_failure
  execute_command s (c ∷ cs) = execute_line s (until_null (butlast (c ∷ cs)))
