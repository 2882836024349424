-- ===== src/NsCapable/Status.antt =====
-- The exit status of ns_capable.c: its last calls of close().
use linux_programming_interf.Common.{
  ℕ, ◌≡◌, ◌≢◌, refl, sym, ◌∙◌, true, false, none, some, List, [], ◌∷◌, ◌==◌, ==_iff, inl, inr,
  Bool-cases, arith,
}
use linux_programming_interf.Common.Text.{CString}
use linux_programming_interf.NsCapable.Kernel.{Stat, NsKernel}
use linux_programming_interf.NsCapable.{
  same_stat, Report, in_target, has_all, has_own, capabilities, not_in_ancestor, descendant,
  compared, with_parent, is_ancestor_userns,
}
use linux_programming_interf.NsCapable.Main.{
  Process, euid_of_process, finish, after_verdict, with_owner, with_walk, with_equal,
}
use linux_programming_interf.NsCapable.Walk.{
  ns_equal_open, open_fresh, round_kept, opened_kept, found_kept,
}
use linux_programming_interf.NsCapable.Above.{same_stat_iff}

module _ (k : NsKernel) where
  finish-success :
      (printed : List Report) (p : k.Table) (target pid : ℕ) (t x : Stat)
      → k.fstat p target ≡ some t
      → k.fstat p pid ≡ some x
      → pid ≢ target
      → (finish k printed p target pid).success ≡ true
  unfolding finish
  finish-success printed p target pid t x ht hx differ =
      let first = k.close_open p target t ht in
      let second =
        k.close_open ((k.close p target).1) pid x (k.close_other p target pid differ ∙ hx) in
      rw (first, second) refl

  finish-failure :
      (printed : List Report) (p : k.Table) (target pid : ℕ)
      → k.fstat p target ≡ none
      → (finish k printed p target pid).success ≡ false
  unfolding finish
  finish-failure printed p target pid ht = rw (k.close_fails p target ht) refl

  -- The status does not depend on what is printed.
  after_verdict_any :
      (p : k.Table) (desc target pid : ℕ) (printed other : List Report)
      → (after_verdict k p desc target pid printed).success
        ≡ (after_verdict k p desc target pid other).success
  unfolding after_verdict finish
  after_verdict_any p desc target pid printed other = elim (Bool-cases (desc == target)) [
    | inl same ↦ rw same refl
    | inr differ ↦ elim (Bool-cases ((k.close p desc).0)) [
      | inl closed ↦ rw (differ, closed) refl
      | inr failed ↦ rw (differ, failed) refl
    ]
  ]

  module _ (pid : Process) (euid : ℕ) (text : CString) (euid_read : euid_of_process pid ≡ some euid)
      (text_read : pid.cap_text ≡ some text) where
    with_descendant-success :
        (p : k.Table) (desc target pid_userns : ℕ) (d : Stat)
        → k.fstat p desc ≡ some d
        → (with_walk k pid target pid_userns (descendant desc p)).success
          ≡ (after_verdict k p desc target pid_userns []).success
    unfolding with_walk with_owner
    with_descendant-success p desc target pid_userns d hd =
        elim (Bool-cases (euid == k.owner_of d)) [
          | inl owns ↦
              rw (euid_read, k.get_owner_uid_result p desc d hd, owns)
                (after_verdict_any p desc target pid_userns (has_all ∷ []) [])
          | inr other ↦
              rw (euid_read, k.get_owner_uid_result p desc d hd, other, text_read)
                (after_verdict_any p desc target pid_userns (has_own ∷ capabilities text ∷ []) [])
        ]

    module _ (p : k.Table) (target pu : ℕ) (t x : Stat) (ht : k.fstat p target ≡ some t)
        (hx : k.fstat p pu ≡ some x) (differ : pu ≢ target) where
      pub member-success : (with_equal k pid p target pu (some true)).success ≡ true
      unfolding with_equal
      member-success =
          rw text_read
            (finish-success (in_target ∷ capabilities text ∷ []) p target pu t x ht hx differ)

      pub initial-success :
          k.parent_of t ≡ none → (with_equal k pid p target pu (some false)).success ≡ true
      unfolding with_equal with_walk is_ancestor_userns with_parent
      initial-success root =
          rw (k.get_parent_root p target t ht root)
            (finish-success (not_in_ancestor ∷ []) p target pu t x ht hx differ)

      same_self : same_stat x x ≡ true
      same_self = (same_stat_iff x x).1 refl

      pub parent-success :
          k.parent_of t ≡ some x → (with_equal k pid p target pu (some false)).success ≡ true
      unfolding with_equal is_ancestor_userns with_parent compared
      parent-success up =
          let at_top =
            ns_equal_open k (k.opened p x) (k.fresh p) pu x x (k.opened_fresh p x)
              (opened_kept k p x x pu hx) in
          let left = found_kept k p x t target ht in
          rw (k.get_parent_result p target t x ht up, at_top, same_self)
            (with_descendant-success ((k.close (k.opened p x) (k.fresh p)).1) target target pu t
                left
              ∙ kept left (found_kept k p x x pu hx))
        where
          kept :
              {q : k.Table}
              → k.fstat q target ≡ some t
              → k.fstat q pu ≡ some x
              → (after_verdict k q target target pu []).success ≡ true
          kept {q = q} h h' =
              let itself : (target == target) ≡ true = ground arith in
              rw (after_verdict, itself) (finish-success [] q target pu t x h h' differ)

      shut_after :
          (q : k.Table) (desc d : ℕ) → k.fstat q d ≡ none → k.fstat ((k.close q desc).1) d ≡ none
      shut_after q desc d h = elim (Bool-cases (d == desc)) [
        | inl same ↦ rw ((==_iff d desc).0 same) (k.close_shut q desc)
        | inr other ↦
            k.close_other q desc d
              (λ e. let same : (d == desc) ≡ true = (==_iff d desc).1 e in let no : ⊥ = cc in no)
            ∙ h
      ]

      -- Closed, it stays closed, though its number may be used again until the next call of close().
      shut_again :
          (q : k.Table) (s : Stat) (d : ℕ)
          → k.fstat q d ≡ none
          → k.fstat ((k.close (k.opened q s) (k.fresh q)).1) d ≡ none
      shut_again q s d h = elim (Bool-cases (d == k.fresh q)) [
        | inl same ↦ rw ((==_iff d (k.fresh q)).0 same) (k.close_shut (k.opened q s) (k.fresh q))
        | inr other ↦
            let apart : d ≢ k.fresh q = (λ e.
              let same : (d == k.fresh q) ≡ true = (==_iff d (k.fresh q)).1 e in
              let no : ⊥ = cc in no) in
            k.close_other (k.opened q s) (k.fresh q) d apart ∙ k.opened_other q s d apart ∙ h
      ]

      shut-failure :
          (q : k.Table) (desc : ℕ)
          → desc ≢ target
          → k.fstat q target ≡ none
          → (after_verdict k q desc target pu []).success ≡ false
      unfolding after_verdict
      shut-failure q desc apart h =
          let other : (desc == target) ≡ false = ground (arith, apart) in
          elim (Bool-cases ((k.close q desc).0)) [
            | inl closed ↦
                rw (other, closed)
                  (finish-failure [] ((k.close q desc).1) target pu (shut_after q desc target h))
            | inr failed ↦ rw (other, failed) refl
          ]

      pub grandparent-failure :
          (u : Stat)
          → k.parent_of t ≡ some u
          → same_stat u x ≡ false
          → k.parent_of u ≡ some x
          → (with_equal k pid p target pu (some false)).success ≡ false
      unfolding with_equal is_ancestor_userns with_parent compared
      grandparent-failure u up other up_again =
          rw
            (
              k.get_parent_result p target t u ht up,
              ns_equal_open k (k.opened p u) (k.fresh p) pu u x (k.opened_fresh p u)
                  (opened_kept k p u x pu hx),
              other,
              k.get_parent_result second (k.fresh p) u x child_open up_again,
              ns_equal_open k (k.opened second x) (k.fresh second) pu x x (k.opened_fresh second x)
                  (opened_kept k second x x pu pu_open),
              same_self,
            )
            (with_descendant-success ((k.close (k.opened second x) (k.fresh second)).1) (k.fresh p)
                target pu u (found_kept k second x u (k.fresh p) child_open)
              ∙ shut-failure ((k.close (k.opened second x) (k.fresh second)).1) (k.fresh p)
                  (λ e. new (sym e))
                  (shut_again second x target (k.close_shut (k.opened p u) target)))
        where
          second : k.Table
          second = (k.close (k.opened p u) target).1

          new : target ≢ k.fresh p
          new = open_fresh k p target t ht

          child_open : k.fstat ((k.close (k.opened p u) target).1) (k.fresh p) ≡ some u
          child_open =
              k.close_other (k.opened p u) target (k.fresh p) (λ e. new (sym e))
              ∙ k.opened_fresh p u

          pu_open : k.fstat ((k.close (k.opened p u) target).1) pu ≡ some x
          pu_open = round_kept k p u target pu x differ hx
