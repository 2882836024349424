-- ===== src/NsCapable/Exit.antt =====
-- The exit status of ns_capable.c for its command line.
use linux_programming_interf.Common.{
  ℕ, ◌≡◌, ◌≢◌, sym, Bool, true, false, none, some, [], ◌∷◌, ◌⊎◌, inl, inr, Bool-cases,
}
use linux_programming_interf.Common.Text.{CString}
use linux_programming_interf.NsCapable.Kernel.{Stat, NsKernel}
use linux_programming_interf.NsCapable.{same_stat, ns_equal}
use linux_programming_interf.NsCapable.Main.{
  Process, euid_of_process, user_path, with_equal, with_pid_userns, main,
}
use linux_programming_interf.NsCapable.Walk.{ns_equal_open, open_fresh, opened_kept}
use linux_programming_interf.NsCapable.Above.{same_stat_iff}
use linux_programming_interf.NsCapable.Decide.{target_of, target_opened}
use linux_programming_interf.NsCapable.Status.{
  member-success, initial-success, parent-success, grandparent-failure,
}

-- The status by where the process's namespace is: it is the one or its parent, or there is no parent;
-- or it is two levels above.
abbrev pub IsStatus : NsKernel → Stat → Stat → Bool → Type 0
IsStatus k x t success =
    (((x ≡ t) ⊎ (k.parent_of t ≡ none) ⊎ (k.parent_of t ≡ some x)) → success ≡ true)
    × ((u : Stat)
        → k.parent_of t ≡ some u
        → x ≢ t
        → x ≢ u
        → k.parent_of u ≡ some x
        → success ≡ false)

differ_test : (s t : Stat) → s ≢ t → same_stat s t ≡ false
differ_test s t h = elim (Bool-cases (same_stat s t)) [
  | inl same ↦ absurd (h ((same_stat_iff s t).0 same))
  | inr differ ↦ differ
]

module _ (k : NsKernel) (pid : Process) (euid : ℕ) (text : CString)
    (euid_read : euid_of_process pid ≡ some euid) (text_read : pid.cap_text ≡ some text) where
  with_equal-IsStatus :
      (p : k.Table) (target pu : ℕ) (t x : Stat)
      → k.fstat p target ≡ some t
      → k.fstat p pu ≡ some x
      → pu ≢ target
      → IsStatus k x t ((with_equal k pid p target pu (some (same_stat x t))).success)
  with_equal-IsStatus p target pu t x ht hx differ = elim (Bool-cases (same_stat x t)) [
    | inl same ↦ rw same (
      (λ c. member-success k pid euid text euid_read text_read p target pu t x ht hx differ),
      (λ u up apart other again. absurd (apart ((same_stat_iff x t).0 same))),
    )
    | inr not_same ↦ rw not_same (
      (λ c. elim c [
        | inl e ↦ let same = (same_stat_iff x t).1 e in absurd (let no : ⊥ = cc in no)
        | inr (inl root) ↦
            initial-success k pid euid text euid_read text_read p target pu t x ht hx differ root
        | inr (inr up) ↦
            parent-success k pid euid text euid_read text_read p target pu t x ht hx differ up
      ]),
      (λ u up apart other again.
          grandparent-failure k pid euid text euid_read text_read p target pu t x ht hx differ u up
            (differ_test u x (λ e. other (sym e))) again),
    )
  ]

  with_pid_userns-IsStatus :
      (p : k.Table) (target : ℕ) (pid_str : CString) (x t : Stat)
      → k.named (user_path pid_str) ≡ some x
      → k.fstat p target ≡ some t
      → IsStatus k x t ((with_pid_userns k pid target (k.open_file p (user_path pid_str))).success)
  with_pid_userns-IsStatus p target pid_str x t hx ht =
      rw (k.open_result p (user_path pid_str) x hx, equal)
        (with_equal-IsStatus (k.opened p x) target (k.fresh p) t x still (k.opened_fresh p x)
          (λ e. open_fresh k p target t ht (sym e)))
    where
      still : k.fstat (k.opened p x) target ≡ some t
      still = opened_kept k p x t target ht

      equal : ns_equal k (k.opened p x) (k.fresh p) target ≡ some (same_stat x t)
      equal = ns_equal_open k (k.opened p x) (k.fresh p) target x t (k.opened_fresh p x) still

-- For two arguments that name a process and the file of a namespace, and a status file and
-- capabilities that can be read, the program exits with EXIT_SUCCESS if the process's user namespace
-- is the one that decides for the file or its parent, or if that one has no parent; it exits with
-- EXIT_FAILURE, whatever it has printed, if the process's is the parent of that one's parent.
pub main-IsStatus :
    (k : NsKernel) (processes : ℕ → Process) (atoi : CString → ℕ) (p : k.Table)
    (name pid_str ns_file : CString) (s x : Stat) (euid : ℕ) (text : CString)
    → k.named ns_file ≡ some s
    → k.named (user_path pid_str) ≡ some x
    → euid_of_process (processes (atoi pid_str)) ≡ some euid
    → (processes (atoi pid_str)).cap_text ≡ some text
    → IsStatus k x
        (target_of k s)
        ((main k processes atoi p (name ∷ pid_str ∷ ns_file ∷ [])).success)
unfolding main
main-IsStatus k processes atoi p name pid_str ns_file s x euid text hs hx he ht =
    let (q, fd, at_target, leads) =
      target_opened k (processes (atoi pid_str)) euid text he ht p pid_str ns_file s hs in
    rw leads (
      with_pid_userns-IsStatus k (processes (atoi pid_str)) euid text he ht q fd pid_str x
        (target_of k s) hx at_target)
