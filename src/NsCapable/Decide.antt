-- ===== src/NsCapable/Decide.antt =====
-- What ns_capable.c prints against the rules of user_namespaces(7), and how it ends.
use linux_programming_interf.Common.{
  ℕ, ◌≤◌, ◌≡◌, ◌≢◌, refl, sym, ◌∙◌, Bool, Option, none, some, List, [], ◌∷◌, ◌==◌, inl, inr,
  Bool-cases, length, arith, if◌then◌else◌,
}
use linux_programming_interf.Common.Text.{CString}
use linux_programming_interf.NsCapable.Kernel.{Stat, NsKernel, Ancestors}
use linux_programming_interf.NsCapable.{
  same_stat, Report, in_target, not_in_ancestor, has_all, has_own, capabilities, WalkResult,
  no_ancestor, descendant, exits, out_of_fuel, ns_equal, is_ancestor_userns,
}
use linux_programming_interf.NsCapable.Main.{
  Process, euid_of_process, clone_newuser, max_rounds, user_path, finish, after_verdict, with_owner,
  with_walk, with_equal, with_pid_userns, with_target,
}
use linux_programming_interf.NsCapable.Walk.{
  child_above, Walked, ns_equal_open, is_ancestor_userns-Walked,
}

-- The user namespace that decides: the file's own, or the one that owns the file's.
abbrev pub target_of : (k : NsKernel) → Stat → Stat
target_of k s = if k.type_of s == clone_newuser then s else k.owning s

abbrev pub owner_verdict : Bool → CString → List Report
owner_verdict is_owner text = if is_owner then has_all ∷ [] else has_own ∷ capabilities text ∷ []

abbrev pub child_verdict : NsKernel → ℕ → CString → Option Stat → List Report
child_verdict k euid text none = not_in_ancestor ∷ []
child_verdict k euid text (some d) = owner_verdict (euid == k.owner_of d) text

abbrev pub verdict : NsKernel → Stat → ℕ → CString → Stat → List Stat → List Report
verdict k x euid text t ts =
    if same_stat x t
    then in_target ∷ capabilities text ∷ []
    else child_verdict k euid text (child_above x t ts)

module _ (k : NsKernel) (pid : Process) (euid : ℕ) (text : CString)
    (euid_read : euid_of_process pid ≡ some euid) (text_read : pid.cap_text ≡ some text) where
  after_verdict_printed :
      (p : k.Table) (desc target_userns pid_userns : ℕ) (printed : List Report)
      → (after_verdict k p desc target_userns pid_userns printed).printed ≡ printed
  unfolding after_verdict finish
  after_verdict_printed p desc target_userns pid_userns printed =
      elim (Bool-cases (desc == target_userns)) [
        | inl same ↦ rw same refl
        | inr differ ↦ elim (Bool-cases ((k.close p desc).0)) [
          | inl closed ↦ rw (differ, closed) refl
          | inr failed ↦ rw (differ, failed) refl
        ]
      ]

  with_walk_printed :
      (p : k.Table) (target_userns pid_userns : ℕ) (o : Option Stat) (r : WalkResult k.Table)
      → Walked k p pid_userns target_userns o r
      → (with_walk k pid target_userns pid_userns r).printed ≡ child_verdict k euid text o
  unfolding with_walk with_owner finish
  with_walk_printed p target_userns pid_userns none (no_ancestor q) h = refl
  with_walk_printed p target_userns pid_userns (some d) (descendant fd q) h =
      elim (Bool-cases (euid == k.owner_of d)) [
        | inl owns ↦
            rw (euid_read, k.get_owner_uid_result q fd d (h.0), owns)
              (after_verdict_printed q fd target_userns pid_userns (has_all ∷ []))
        | inr other ↦
            rw (euid_read, k.get_owner_uid_result q fd d (h.0), other, text_read)
              (after_verdict_printed q fd target_userns pid_userns
                (has_own ∷ capabilities text ∷ []))
      ]
  with_walk_printed p target_userns pid_userns none (descendant fd q) h = absurd h
  with_walk_printed p target_userns pid_userns none exits h = absurd h
  with_walk_printed p target_userns pid_userns none out_of_fuel h = absurd h
  with_walk_printed p target_userns pid_userns (some d) (no_ancestor q) h = absurd h
  with_walk_printed p target_userns pid_userns (some d) exits h = absurd h
  with_walk_printed p target_userns pid_userns (some d) out_of_fuel h = absurd h

  pub with_pid_userns_printed :
      (p : k.Table) (target_userns : ℕ) (pid_str : CString) (x t : Stat) (ts : List Stat)
      → k.named (user_path pid_str) ≡ some x
      → k.fstat p target_userns ≡ some t
      → Ancestors k t ts
      → length ts ≤ 32
      → (with_pid_userns k pid target_userns (k.open_file p (user_path pid_str))).printed
        ≡ verdict k x euid text t ts
  unfolding with_equal finish
  with_pid_userns_printed p target_userns pid_str x t ts hx ht chain few =
      elim (Bool-cases (same_stat x t)) [
        | inl same ↦ rw (k.open_result p (user_path pid_str) x hx, equal, same, text_read) refl
        | inr differ ↦
            rw (k.open_result p (user_path pid_str) x hx, equal, differ)
              (with_walk_printed (k.opened p x) target_userns (k.fresh p) (child_above x t ts)
                (is_ancestor_userns k max_rounds (k.fresh p) (k.opened p x) target_userns)
                (is_ancestor_userns-Walked k max_rounds (k.fresh p) target_userns x t (k.opened p x)
                  ts (k.opened_fresh p x) still not_fresh chain (omega (arith, few))))
      ]
    where
      not_fresh : target_userns ≢ k.fresh p
      not_fresh e =
          let shut : k.fstat p target_userns ≡ none = rw e (k.fresh_shut p) in let no : ⊥ = cc in no

      still : k.fstat (k.opened p x) target_userns ≡ some t
      still = k.opened_other p x target_userns not_fresh ∙ ht

      equal : ns_equal k (k.opened p x) (k.fresh p) target_userns ≡ some (same_stat x t)
      equal =
          ns_equal_open k (k.opened p x) (k.fresh p) target_userns x t (k.opened_fresh p x) still

  -- The descriptor of the deciding namespace, and the table when the process's is opened.
  pub target_opened :
      (p : k.Table) (pid_str ns_file : CString) (s : Stat)
      → k.named ns_file ≡ some s
      → (q : k.Table) × (fd : ℕ) × (k.fstat q fd ≡ some (target_of k s))
        × (with_target k pid pid_str (k.open_file p ns_file)
            ≡ with_pid_userns k pid fd (k.open_file q (user_path pid_str)))
  unfolding with_equal
  target_opened p pid_str ns_file s hs = elim (Bool-cases (k.type_of s == clone_newuser)) [
    | inl is_userns ↦ (
      k.opened p s,
      k.fresh p,
      rw is_userns (k.opened_fresh p s),
      rw (k.open_result p ns_file s hs, typed, is_userns) refl,
    )
    | inr other ↦ (
      (k.close (k.opened (k.opened p s) (k.owning s)) (k.fresh p)).1,
      k.fresh (k.opened p s),
      rw other (
          k.close_other (k.opened (k.opened p s) (k.owning s)) (k.fresh p) (k.fresh (k.opened p s))
            differ
          ∙ k.opened_fresh (k.opened p s) (k.owning s)),
      rw (k.open_result p ns_file s hs, typed, other, owned) refl,
    )
  ]
    where
      typed : k.get_nstype (k.opened p s) (k.fresh p) ≡ some (k.type_of s)
      typed = k.get_nstype_result (k.opened p s) (k.fresh p) s (k.opened_fresh p s)

      owned :
          k.get_userns (k.opened p s) (k.fresh p)
          ≡ (some (k.fresh (k.opened p s)), k.opened (k.opened p s) (k.owning s))
      owned = k.get_userns_result (k.opened p s) (k.fresh p) s (k.opened_fresh p s)

      differ : k.fresh (k.opened p s) ≢ k.fresh p
      differ e =
          let shut : k.fstat (k.opened p s) (k.fresh p) ≡ none =
            rw (sym e) (k.fresh_shut (k.opened p s)) in
          let is_open = k.opened_fresh p s in let no : ⊥ = cc in no
