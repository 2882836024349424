-- ===== src/SvsemOp/Main.antt =====
-- `main` of book-src/svsem/svsem_op.c. semop() and getInt() are parameters; what is printed is left out.
use linux_programming_interf.Common.{ℕ, Option, none, some, List, [], ◌∷◌, if◌then◌else◌}
use linux_programming_interf.Common.Text.{CString}
use linux_programming_interf.Acl.{same_text}
use linux_programming_interf.SvsemOp.{Sembuf, parse_ops}

-- "--help"
abbrev pub help : CString
help = b'-' ∷ b'-' ∷ b'h' ∷ b'e' ∷ b'l' ∷ b'p' ∷ []

-- The semaphores when the process exits, and how: with success, by usageError or another error.
pub data MainEnd (S : Type 0) : Type 0 where
  succeeded : S → MainEnd S
  misused : S → MainEnd S
  failed : S → MainEnd S

module _ {S : Type 0} (strtol : CString → ℕ × CString) (get_int : CString → Option ℕ)
    (semop : S → ℕ → List Sembuf → Option S) where
  -- What a call of semop() leads to.
  abbrev pub after_semop : S → Option S → (S → MainEnd S) → MainEnd S
  after_semop s none next = failed s
  after_semop s (some s') next = next s'

  -- getInt() exits for a text that is no number.
  abbrev pub with_semid : S → Option ℕ → List Sembuf → (S → MainEnd S) → MainEnd S
  with_semid s none sops next = failed s
  with_semid s (some semid) sops next = after_semop s (semop s semid sops) next

  abbrev pub with_ops : S → CString → Option (List Sembuf) → (S → MainEnd S) → MainEnd S
  with_ops s semid none next = misused s
  with_ops s semid (some sops) next = with_semid s (get_int semid) sops next

  -- The loop over the arguments from the second on.
  unfoldable pub each_arg : CString → List CString → S → MainEnd S
  each_arg semid [] s = succeeded s
  each_arg semid (arg ∷ args) s = with_ops s semid (parse_ops strtol arg) (each_arg semid args)

  -- The arguments behind the program's name.
  unfoldable pub main : List CString → S → MainEnd S
  unfolding each_arg
  main [] s = misused s
  main (semid ∷ args) s = if same_text semid help then misused s else each_arg semid args s
