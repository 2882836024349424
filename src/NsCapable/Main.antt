-- ===== src/NsCapable/Main.antt =====
-- `main` of book-src/namespaces/ns_capable.c, with the functions that read the process.
use linux_programming_interf.Common.{
  ℕ, Bool, true, false, ◌&&◌, Option, none, some, List, [], ◌∷◌, ◌++◌, ◌==◌, if◌then◌else◌,
}
use linux_programming_interf.Common.Text.{CString}
use linux_programming_interf.Inotify.Paths.{path_max, snprintf}
use linux_programming_interf.NsCapable.Kernel.{NsKernel}
use linux_programming_interf.NsCapable.{
  Report, in_target, not_in_ancestor, has_all, has_own, capabilities, Outcome, failed_after,
  WalkResult, no_ancestor, descendant, exits, out_of_fuel, ns_equal, is_ancestor_userns,
}

-- What is read of the process: the lines of its status file, the number that sscanf() finds in a "Uid:"
-- line, and the text of its capabilities.
pub record Process : Type 0 where
  pub status_lines : Option (List CString)
  pub scan_uid : CString → ℕ
  pub cap_text : Option CString

-- `strstr(line, "Uid:") == line`
abbrev pub is_uid_line : CString → Bool
is_uid_line (u ∷ i ∷ d ∷ c ∷ _) = u == b'U' && i == b'i' && d == b'd' && c == b':'
is_uid_line _ = false

unfoldable pub scan_lines : (CString → ℕ) → List CString → Option ℕ
scan_lines scan_uid [] = none
scan_lines scan_uid (line ∷ lines) =
    let rest = scan_lines scan_uid lines in if is_uid_line line then some (scan_uid line) else rest

unfoldable pub euid_of_process : Process → Option ℕ
unfolding scan_lines
euid_of_process pid = elim pid.status_lines [
  | none ↦ none
  | some lines ↦ scan_lines pid.scan_uid lines
]

abbrev pub clone_newuser : ℕ
clone_newuser = 0x10000000

-- The kernel allows 32 levels of user namespaces; the loop passes each at most once.
abbrev pub max_rounds : ℕ
max_rounds = 33

-- `snprintf(path, sizeof(path), "/proc/%s/ns/user", pid_str)`
unfoldable pub user_path : CString → CString
unfolding snprintf
user_path pid_str = snprintf path_max (
    (b'/' ∷ b'p' ∷ b'r' ∷ b'o' ∷ b'c' ∷ b'/' ∷ [])
    ++ pid_str
    ++ (b'/' ∷ b'n' ∷ b's' ∷ b'/' ∷ b'u' ∷ b's' ∷ b'e' ∷ b'r' ∷ []))

module _ (k : NsKernel) where
  -- The two calls of close() at the end.
  unfoldable pub finish : List Report → k.Table → ℕ → ℕ → Outcome
  finish printed p target_userns pid_userns = record {
    printed = printed;
    success = (k.close p target_userns).0 && (k.close (k.close p target_userns).1 pid_userns).0;
  }

  -- `display_process_capabilities`, and what comes behind it.
  abbrev pub displayed : Option CString → List Report → (List Report → Outcome) → Outcome
  displayed none printed next = failed_after printed
  displayed (some text) printed next = next (printed ++ capabilities text ∷ [])

  -- "Prevent double close()": the descendant's descriptor is closed if it is another one.
  unfoldable pub after_verdict : k.Table → ℕ → ℕ → ℕ → List Report → Outcome
  unfolding finish
  after_verdict p desc_userns target_userns pid_userns printed =
      if desc_userns == target_userns
      then finish printed p target_userns pid_userns
      else if (k.close p desc_userns).0
      then finish printed ((k.close p desc_userns).1) target_userns pid_userns
      else failed_after printed

  unfoldable pub with_owner : Process → k.Table → ℕ → ℕ → ℕ → Option ℕ → Option ℕ → Outcome
  unfolding after_verdict
  with_owner pid p desc target_userns pid_userns none owner_uid = failed_after []
  with_owner pid p desc target_userns pid_userns (some euid) none = failed_after []
  with_owner pid p desc target_userns pid_userns (some euid) (some owner_uid) =
      if euid == owner_uid
      then after_verdict p desc target_userns pid_userns (has_all ∷ [])
      else displayed pid.cap_text (has_own ∷ []) (after_verdict p desc target_userns pid_userns)

  unfoldable pub with_walk : Process → ℕ → ℕ → WalkResult k.Table → Outcome
  unfolding with_owner euid_of_process finish
  with_walk pid target_userns pid_userns (no_ancestor p) =
      finish (not_in_ancestor ∷ []) p target_userns pid_userns
  with_walk pid target_userns pid_userns (descendant desc p) =
      with_owner pid p desc target_userns pid_userns (euid_of_process pid) (k.get_owner_uid p desc)
  with_walk pid target_userns pid_userns exits = failed_after []
  with_walk pid target_userns pid_userns out_of_fuel = failed_after []

  unfoldable pub with_equal : Process → k.Table → ℕ → ℕ → Option Bool → Outcome
  unfolding with_walk is_ancestor_userns finish
  with_equal pid p target_userns pid_userns none = failed_after []
  with_equal pid p target_userns pid_userns (some true) =
      displayed pid.cap_text (in_target ∷ []) (λ printed. finish printed p target_userns pid_userns)
  with_equal pid p target_userns pid_userns (some false) =
      with_walk pid target_userns pid_userns
        (is_ancestor_userns k max_rounds pid_userns p target_userns)

  abbrev pub with_pid_userns : Process → ℕ → Option ℕ × k.Table → Outcome
  with_pid_userns pid target_userns (none, p) = failed_after []
  with_pid_userns pid target_userns (some pid_userns, p) =
      with_equal pid p target_userns pid_userns (ns_equal k p pid_userns target_userns)

  -- `owning_userns_of`, and `close(target_ns)`.
  abbrev pub with_owning : Process → CString → ℕ → Option ℕ × k.Table → Outcome
  with_owning pid pid_str target_ns (none, p) = failed_after []
  with_owning pid pid_str target_ns (some target_userns, p) =
      with_pid_userns pid target_userns (k.open_file ((k.close p target_ns).1) (user_path pid_str))

  abbrev pub with_type : Process → CString → k.Table → ℕ → Option ℕ → Outcome
  with_type pid pid_str p target_ns none = failed_after []
  with_type pid pid_str p target_ns (some nstype) =
      if nstype == clone_newuser
      then with_pid_userns pid target_ns (k.open_file p (user_path pid_str))
      else with_owning pid pid_str target_ns (k.get_userns p target_ns)

  abbrev pub with_target : Process → CString → Option ℕ × k.Table → Outcome
  with_target pid pid_str (none, p) = failed_after []
  with_target pid pid_str (some target_ns, p) =
      with_type pid pid_str p target_ns (k.get_nstype p target_ns)

  -- `processes` is the process of a number, `atoi` the libc's.
  unfoldable pub main : (ℕ → Process) → (CString → ℕ) → k.Table → List CString → Outcome
  unfolding with_equal
  main processes atoi p (_ ∷ pid_str ∷ ns_file ∷ []) =
      with_target (processes (atoi pid_str)) pid_str (k.open_file p ns_file)
  main processes atoi p _ = failed_after []
