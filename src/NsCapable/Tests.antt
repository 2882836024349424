-- ===== src/NsCapable/Tests.antt =====
-- Runs of the definitions on a small kernel, whose user namespaces are one below the other.
use linux_programming_interf.Common.{
  ℕ, zero, suc, ◌-◌, ◌≡◌, ◌≢◌, refl, ap, Bool, true, false, Option, none, some, List, [], ◌∷◌, ◌==◌,
  arith, if◌then◌else◌,
}
use linux_programming_interf.Common.Text.{CString}
use linux_programming_interf.NsCapable.Kernel.{
  Stat, ParentResult, parent_fd, eperm, other_error, NsKernel, initial, below,
}
use linux_programming_interf.NsCapable.{
  has_all, failed_after, ns_equal, compared, with_parent, is_ancestor_userns,
}
use linux_programming_interf.NsCapable.Main.{
  Process, euid_of_process, scan_lines, clone_newuser, user_path, finish, after_verdict, with_owner,
  with_walk, with_equal, main,
}
use linux_programming_interf.NsCapable.Rules.{IsRuled, main-IsRuled}
use linux_programming_interf.NsCapable.Exit.{IsStatus, main-IsStatus}

-- The lowest free descriptor is used.
abbrev Slots : Type 0
Slots = List (Option Stat)

abbrev slot : Slots → ℕ → Option Stat
slot [] fd = none
slot (o ∷ p) zero = o
slot (o ∷ p) (suc fd) = slot p fd

abbrev first_free : Slots → ℕ
first_free [] = 0
first_free (none ∷ p) = 0
first_free (some s ∷ p) = suc (first_free p)

abbrev put_slot : Slots → Stat → Slots
put_slot [] s = some s ∷ []
put_slot (none ∷ p) s = some s ∷ p
put_slot (some t ∷ p) s = some t ∷ put_slot p s

abbrev clear : Slots → ℕ → Slots
clear [] fd = []
clear (o ∷ p) zero = none ∷ p
clear (o ∷ p) (suc fd) = o ∷ clear p fd

abbrev is_open : Option Stat → Bool
is_open none = false
is_open (some s) = true

first_free_shut : (p : Slots) → slot p (first_free p) ≡ none
first_free_shut [] = refl
first_free_shut (none ∷ p) = refl
first_free_shut (some s ∷ p) = first_free_shut p

put_slot_new : (p : Slots) (s : Stat) → slot (put_slot p s) (first_free p) ≡ some s
put_slot_new [] s = refl
put_slot_new (none ∷ p) s = refl
put_slot_new (some t ∷ p) s = put_slot_new p s

put_slot_other :
    (p : Slots) (s : Stat) (fd : ℕ) → fd ≢ first_free p → slot (put_slot p s) fd ≡ slot p fd
put_slot_other [] s zero h = absurd (h refl)
put_slot_other [] s (suc fd) h = refl
put_slot_other (none ∷ p) s zero h = absurd (h refl)
put_slot_other (none ∷ p) s (suc fd) h = refl
put_slot_other (some t ∷ p) s zero h = refl
put_slot_other (some t ∷ p) s (suc fd) h = put_slot_other p s fd (λ e. h (ap suc e))

clear_shut : (p : Slots) (fd : ℕ) → slot (clear p fd) fd ≡ none
clear_shut [] fd = refl
clear_shut (o ∷ p) zero = refl
clear_shut (o ∷ p) (suc fd) = clear_shut p fd

clear_other : (p : Slots) (fd d : ℕ) → d ≢ fd → slot (clear p fd) d ≡ slot p d
clear_other [] fd d h = refl
clear_other (o ∷ p) zero zero h = absurd (h refl)
clear_other (o ∷ p) zero (suc d) h = refl
clear_other (o ∷ p) (suc fd) zero h = refl
clear_other (o ∷ p) (suc fd) (suc d) h = clear_other p fd d (λ e. h (ap suc e))

abbrev userns : ℕ → Stat
userns level = record { st_dev = 0; st_ino = level }

-- The level of the user namespace is the file's first digit; "/proc/.../ns/user" is at level `here`.
abbrev level_of : ℕ → CString → Option Stat
level_of here [] = none
level_of here (c ∷ cs) = if c == b'/' then some (userns here) else some (userns (c - 48))

abbrev above : ℕ → Option Stat
above zero = none
above (suc level) = some (userns level)

abbrev result_for : Slots → Option Stat → ParentResult × Slots
result_for p none = (eperm, p)
result_for p (some t) = (parent_fd (first_free p), put_slot p t)

abbrev parent_result : Slots → Option Stat → ParentResult × Slots
parent_result p none = (other_error, p)
parent_result p (some s) = result_for p (above s.st_ino)

abbrev opened_at : Slots → Option Stat → Option ℕ × Slots
opened_at p none = (none, p)
opened_at p (some s) = (some (first_free p), put_slot p s)

abbrev attribute : {A : Type 0} → (Stat → A) → Option Stat → Option A
attribute f none = none
attribute f (some s) = some (f s)

abbrev kernel : ℕ → NsKernel
kernel here = record {
  Table = Slots;
  fstat = slot;
  fresh = first_free;
  opened = put_slot;
  open_file = λ p path. opened_at p (level_of here path);
  close = λ p fd. (is_open (slot p fd), clear p fd);
  get_nstype = λ p fd. attribute (λ s. clone_newuser) (slot p fd);
  get_userns = λ p fd. opened_at p (slot p fd);
  get_parent = λ p fd. parent_result p (slot p fd);
  get_owner_uid = λ p fd. attribute (λ s. 1000) (slot p fd);
  named = level_of here;
  type_of = λ s. clone_newuser;
  owning = λ s. s;
  parent_of = λ s. above s.st_ino;
  owner_of = λ s. 1000;
  fresh_shut = first_free_shut;
  opened_fresh = put_slot_new;
  opened_other = put_slot_other;
  open_result = λ p path s h. rw h refl;
  close_open = λ p fd s h. rw h refl;
  close_other = λ p fd other h. clear_other p fd other h;
  close_shut = clear_shut;
  close_fails = λ p fd h. rw h refl;
  get_nstype_result = λ p fd s h. rw h refl;
  get_userns_result = λ p fd s h. rw h refl;
  get_parent_root = λ p fd s h root. rw (h, root) refl;
  get_parent_result = λ p fd s parent h up. rw (h, up) refl;
  get_owner_uid_result = λ p fd s h. rw h refl;
}

-- "Uid:" in the second line
abbrev shell : Process
shell = record {
  status_lines = some ((b'N' ∷ []) ∷ (b'U' ∷ b'i' ∷ b'd' ∷ b':' ∷ []) ∷ []);
  scan_uid = λ line. 1000;
  cap_text = some (b'=' ∷ []);
}

shell_euid : euid_of_process shell ≡ some 1000
unfolding euid_of_process scan_lines
shell_euid = refl

shell_path : level_of 1 (user_path (b'7' ∷ [])) ≡ some (userns 1)
unfolding user_path
shell_path = refl

abbrev standard : Slots
standard = some (userns 0) ∷ some (userns 0) ∷ some (userns 0) ∷ []

abbrev arguments : List CString
arguments = (b'n' ∷ []) ∷ (b'7' ∷ []) ∷ (b'3' ∷ []) ∷ []

-- From the third level below the first, all is owned.
main-IsRuled_example :
    IsRuled
      (kernel 1)
      (userns 1)
      1000
      (b'=' ∷ [])
      (userns 3)
      ((main (kernel 1) (λ n. shell) (λ digits. 7) standard arguments).printed)
main-IsRuled_example =
    main-IsRuled (kernel 1) (λ n. shell) (λ digits. 7) standard (b'n' ∷ []) (b'7' ∷ []) (b'3' ∷ [])
      (userns 3) (userns 1) (userns 2 ∷ userns 1 ∷ userns 0 ∷ []) 1000 (b'=' ∷ []) refl shell_path
      shell_euid refl (below refl (below refl (below refl (initial refl)))) (omega arith)

main-IsStatus_example :
    IsStatus
      (kernel 1)
      (userns 1)
      (userns 3)
      ((main (kernel 1) (λ n. shell) (λ digits. 7) standard arguments).success)
main-IsStatus_example =
    main-IsStatus (kernel 1) (λ n. shell) (λ digits. 7) standard (b'n' ∷ []) (b'7' ∷ []) (b'3' ∷ [])
      (userns 3) (userns 1) 1000 (b'=' ∷ []) refl shell_path shell_euid refl

all_in_grandparent :
    main (kernel 1) (λ n. shell) (λ digits. 7) standard arguments ≡ failed_after (has_all ∷ [])
unfolding main with_equal with_walk is_ancestor_userns with_parent compared ns_equal with_owner
    user_path after_verdict finish euid_of_process scan_lines
all_in_grandparent = refl
