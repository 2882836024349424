-- ===== src/NsCapable/Rules.antt =====
-- The program's answer by the rules of user_namespaces(7), and its exit status.
use linux_programming_interf.Common.{
  ℕ, ◌≤◌, ◌≡◌, ◌≢◌, refl, sym, ap, ◌∙◌, true, false, ◌↔◌, none, some, List, [], ◌∷◌, ◌==◌, ==_iff,
  inl, inr, Bool-cases, Option-cases, length,
}
use linux_programming_interf.Common.Text.{CString}
use linux_programming_interf.NsCapable.Kernel.{Stat, NsKernel, Ancestors, HasAll, IsAbove}
use linux_programming_interf.NsCapable.{
  same_stat, Report, in_target, not_in_ancestor, has_all, has_own, capabilities,
}
use linux_programming_interf.NsCapable.Main.{Process, euid_of_process, user_path, main}
use linux_programming_interf.NsCapable.Walk.{child_above}
use linux_programming_interf.NsCapable.Above.{
  same_stat_iff, some_injective, no_cycle, HasAll-child, child-HasAll, IsAbove-child, child-IsAbove,
}
use linux_programming_interf.NsCapable.Decide.{
  target_of, owner_verdict, verdict, target_opened, with_pid_userns_printed,
}

-- Each answer is given exactly where the rules give it.
abbrev pub IsRuled : NsKernel → Stat → ℕ → CString → Stat → List Report → Type 0
IsRuled k x euid text t printed =
    ((printed ≡ in_target ∷ capabilities text ∷ []) ↔ (x ≡ t))
    × ((printed ≡ has_all ∷ []) ↔ HasAll k x euid t)
    × ((printed ≡ has_own ∷ capabilities text ∷ []) ↔ (IsAbove k x t × ¬ HasAll k x euid t))
    × ((printed ≡ not_in_ancestor ∷ []) ↔ ((x ≢ t) × ¬ IsAbove k x t))

module _ (k : NsKernel) (x t : Stat) (euid : ℕ) (text : CString) (ts : List Stat)
    (chain : Ancestors k t ts) where
  not-IsAbove_itself : x ≡ t → ¬ IsAbove k x t
  not-IsAbove_itself e h =
      IsAbove-child k x t ts chain h (rw (sym e) (no_cycle k x ts (rw (sym e) at chain)))

  HasAll-IsAbove : HasAll k x euid t → IsAbove k x t
  HasAll-IsAbove h =
      let (d, at_child, owned) = HasAll-child k x t euid ts chain h in
      child-IsAbove k x t d ts chain at_child

  not_same : (same_stat x t ≡ false) → x ≢ t
  not_same differ e = let same = (same_stat_iff x t).1 e in let no : ⊥ = cc in no

  IsRuled-above :
      (d : Stat)
      → same_stat x t ≡ false
      → child_above x t ts ≡ some d
      → IsRuled k x euid text t (owner_verdict (euid == k.owner_of d) text)
  IsRuled-above d differ at_child = elim (Bool-cases (euid == k.owner_of d)) [
    | inl owns ↦
        let all = child-HasAll k x t d euid ts chain at_child (sym ((==_iff _ _).0 owns)) in
        rw owns (
          ((λ e. cc), (λ e. absurd (not_same differ e))),
          ((λ e. all), (λ h. refl)),
          ((λ e. cc), (λ h. absurd (h.1 all))),
          ((λ e. cc), (λ h. absurd (h.1 above))),
        )
    | inr other ↦ rw other (
      ((λ e. cc), (λ e. absurd (not_same differ e))),
      ((λ e. cc), (λ h. absurd (not_all other h))),
      ((λ e. (above, not_all other)), (λ h. refl)),
      ((λ e. cc), (λ h. absurd (h.1 above))),
    )
  ]
    where
      above : IsAbove k x t
      above = child-IsAbove k x t d ts chain at_child

      not_all : (euid == k.owner_of d) ≡ false → ¬ HasAll k x euid t
      not_all other h =
          let (d', at_child', owned) = HasAll-child k x t euid ts chain h in
          let same_child : d' ≡ d = some_injective (sym at_child' ∙ at_child) in
          let equal : (euid == k.owner_of d) ≡ true =
            (==_iff _ _).1 (sym owned ∙ ap k.owner_of same_child) in
          let no : ⊥ = cc in no

  IsRuled-apart :
      same_stat x t ≡ false
      → child_above x t ts ≡ none
      → IsRuled k x euid text t (not_in_ancestor ∷ [])
  IsRuled-apart differ nowhere = (
    ((λ e. cc), (λ e. absurd (not_same differ e))),
    ((λ e. cc), (λ h. absurd (apart (HasAll-IsAbove h)))),
    ((λ e. cc), (λ h. absurd (apart (h.0)))),
    ((λ e. (not_same differ, apart)), (λ h. refl)),
  )
    where
      apart : ¬ IsAbove k x t
      apart h = IsAbove-child k x t ts chain h nowhere

  verdict-IsRuled : IsRuled k x euid text t (verdict k x euid text t ts)
  verdict-IsRuled = elim (Bool-cases (same_stat x t)) [
    | inl same ↦
        let itself = (same_stat_iff x t).0 same in
        rw same (
          ((λ e. itself), (λ e. refl)),
          ((λ e. cc), (λ h. absurd (not-IsAbove_itself itself (HasAll-IsAbove h)))),
          ((λ e. cc), (λ h. absurd (not-IsAbove_itself itself (h.0)))),
          ((λ e. cc), (λ h. absurd (h.0 itself))),
        )
    | inr differ ↦ elim (Option-cases (child_above x t ts)) [
      | inl nowhere ↦ rw (differ, nowhere) (IsRuled-apart differ nowhere)
      | inr (d, at_child) ↦ rw (differ, at_child) (IsRuled-above d differ at_child)
    ]
  ]

-- For two arguments that name a process and the file of a namespace, with at most 32 namespaces above
-- the user namespace that decides for the file, and a status file and capabilities that can be read,
-- the program says that the process is in that namespace exactly if it is; that it has all
-- capabilities exactly if the rules of user_namespaces(7) give it all through an owned child; that it
-- has those of its sets exactly if its namespace is an ancestor without that; and that it has none
-- exactly if its namespace is neither the deciding one nor above it.
pub main-IsRuled :
    (k : NsKernel) (processes : ℕ → Process) (atoi : CString → ℕ) (p : k.Table)
    (name pid_str ns_file : CString) (s x : Stat) (ts : List Stat) (euid : ℕ) (text : CString)
    → k.named ns_file ≡ some s
    → k.named (user_path pid_str) ≡ some x
    → euid_of_process (processes (atoi pid_str)) ≡ some euid
    → (processes (atoi pid_str)).cap_text ≡ some text
    → Ancestors k (target_of k s) ts
    → length ts ≤ 32
    → IsRuled k x euid text
        (target_of k s)
        ((main k processes atoi p (name ∷ pid_str ∷ ns_file ∷ [])).printed)
unfolding main
main-IsRuled k processes atoi p name pid_str ns_file s x ts euid text hs hx he ht chain few =
    let (q, fd, at_target, leads) =
      target_opened k (processes (atoi pid_str)) euid text he ht p pid_str ns_file s hs in
    rw
      (
        leads,
        with_pid_userns_printed k (processes (atoi pid_str)) euid text he ht q fd pid_str x
            (target_of k s) ts hx at_target chain few,
      )
      (verdict-IsRuled k x (target_of k s) euid text ts chain)
