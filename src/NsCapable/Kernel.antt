-- ===== src/NsCapable/Kernel.antt =====
-- The namespaces and descriptors of the kernel, as book-src/namespaces/ns_capable.c uses them: the calls
-- with what ioctl_ns(2) and user_namespaces(7) say of them. Calls that fail only for want of
-- descriptors or permission, where the program exits, are taken to succeed.
use linux_programming_interf.Common.{
  ℕ, ◌≡◌, ◌≢◌, Bool, true, false, Option, none, some, List, [], ◌∷◌,
}
use linux_programming_interf.Common.Text.{CString}

-- What identifies a namespace: `st_dev` and `st_ino`.
pub record Stat : Type 0 where
  pub st_dev : ℕ
  pub st_ino : ℕ

-- A new descriptor, EPERM, or another error.
pub data ParentResult : Type 0 where
  parent_fd : ℕ → ParentResult
  eperm : ParentResult
  other_error : ParentResult

-- `Table` is the table of the descriptors, whose observation is `fstat`; `fresh` is the descriptor that
-- the next call opens, and `opened` the table then.
pub record NsKernel : Type 1 where
  pub Table : Type 0
  pub fstat : Table → ℕ → Option Stat
  pub fresh : Table → ℕ
  pub opened : Table → Stat → Table
  pub open_file : Table → CString → Option ℕ × Table
  pub close : Table → ℕ → Bool × Table
  pub get_nstype : Table → ℕ → Option ℕ
  pub get_userns : Table → ℕ → Option ℕ × Table
  pub get_parent : Table → ℕ → ParentResult × Table
  pub get_owner_uid : Table → ℕ → Option ℕ
  pub named : CString → Option Stat
  pub type_of : Stat → ℕ
  pub owning : Stat → Stat
  pub parent_of : Stat → Option Stat
  pub owner_of : Stat → ℕ
  pub fresh_shut : (p : Table) → fstat p (fresh p) ≡ none
  pub opened_fresh : (p : Table) (s : Stat) → fstat (opened p s) (fresh p) ≡ some s
  pub opened_other :
      (p : Table) (s : Stat) (fd : ℕ) → fd ≢ fresh p → fstat (opened p s) fd ≡ fstat p fd
  pub open_result :
      (p : Table) (path : CString) (s : Stat)
      → named path ≡ some s
      → open_file p path ≡ (some (fresh p), opened p s)
  pub close_open : (p : Table) (fd : ℕ) (s : Stat) → fstat p fd ≡ some s → (close p fd).0 ≡ true
  pub close_other :
      (p : Table) (fd other : ℕ) → other ≢ fd → fstat ((close p fd).1) other ≡ fstat p other
  pub close_shut : (p : Table) (fd : ℕ) → fstat ((close p fd).1) fd ≡ none
  pub close_fails : (p : Table) (fd : ℕ) → fstat p fd ≡ none → (close p fd).0 ≡ false
  pub get_nstype_result :
      (p : Table) (fd : ℕ) (s : Stat) → fstat p fd ≡ some s → get_nstype p fd ≡ some (type_of s)
  pub get_userns_result :
      (p : Table) (fd : ℕ) (s : Stat)
      → fstat p fd ≡ some s
      → get_userns p fd ≡ (some (fresh p), opened p (owning s))
  pub get_parent_root :
      (p : Table) (fd : ℕ) (s : Stat)
      → fstat p fd ≡ some s
      → parent_of s ≡ none
      → get_parent p fd ≡ (eperm, p)
  pub get_parent_result :
      (p : Table) (fd : ℕ) (s parent : Stat)
      → fstat p fd ≡ some s
      → parent_of s ≡ some parent
      → get_parent p fd ≡ (parent_fd (fresh p), opened p parent)
  pub get_owner_uid_result :
      (p : Table) (fd : ℕ) (s : Stat) → fstat p fd ≡ some s → get_owner_uid p fd ≡ some (owner_of s)

-- The user namespaces above one, from its parent to the initial one.
pub data Ancestors (k : NsKernel) : Stat → List Stat → Type 0 where
  initial : {s : Stat} → k.parent_of s ≡ none → Ancestors k s []
  below :
      {s t : Stat} {ts : List Stat}
      → k.parent_of s ≡ some t
      → Ancestors k t ts
      → Ancestors k s (t ∷ ts)

-- user_namespaces(7): a process in namespace `x` with effective UID `euid` has all capabilities in the
-- children of `x` that the user owns, and in all that are below such a child.
pub data HasAll (k : NsKernel) (x : Stat) (euid : ℕ) : Stat → Type 0 where
  owner : {s : Stat} → k.parent_of s ≡ some x → k.owner_of s ≡ euid → HasAll k x euid s
  inherited : {s t : Stat} → k.parent_of s ≡ some t → HasAll k x euid t → HasAll k x euid s

-- `x` is the parent of a namespace, or further above.
pub data IsAbove (k : NsKernel) (x : Stat) : Stat → Type 0 where
  parent : {s : Stat} → k.parent_of s ≡ some x → IsAbove k x s
  further : {s t : Stat} → k.parent_of s ≡ some t → IsAbove k x t → IsAbove k x s
