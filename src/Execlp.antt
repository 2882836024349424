-- ===== src/Execlp.antt =====
-- `execlp` of book-src/procexec/execlp.c, which looks for a program along PATH. execve() is a
-- parameter: it answers a pathname and an argument vector with `none`, the program that runs from
-- then on, or with the `errno` of a failure. A string is its bytes, without the null at its end.
pub mod Search
pub mod Arguments
mod Tests
use linux_programming_interf.Common.{
  ℕ, ◌+◌, Bool, true, false, ◌&&◌, not, Option, none, some, List, [], ◌∷◌, ◌++◌, length, replicate,
  leb, ◌==◌, if◌then◌else◌,
}
use linux_programming_interf.Common.Memory.{store}
use linux_programming_interf.Common.Text.{CString, split_on}

abbrev pub enoexec : ℕ
enoexec = 8

abbrev pub eacces : ℕ
eacces = 13

abbrev pub shell_path : CString
shell_path = b'/' ∷ b'b' ∷ b'i' ∷ b'n' ∷ b'/' ∷ b's' ∷ b'h' ∷ []

-- The end of a call: the process runs another program; -1 with `errno`; -1 since memory is out; or a
-- write past the end of an array.
pub data Outcome : Type 0 where
  replaced : CString → List (Option CString) → Outcome
  returned : ℕ → Outcome
  no_memory : Outcome
  fault : Outcome

-- `argv` with its `argc` items, the NULL at its end included.
pub data Collected : Type 0 where
  collected : List CString → Collected
  not_resized : Collected
  overrun : Collected

-- `argvSize` and the number of pointers that the allocated memory has room for.
pub record Vector : Type 0 where
  pub argv_size : ℕ
  pub room : ℕ

-- `argvSize += 100` and `realloc(argv, sizeof(void *))`, which leaves room for one pointer.
abbrev pub resize : Vector → Vector
resize v = record { argv_size = v.argv_size + 100; room = 1 }

-- A round of the loop over the arguments: `args` are those in `argv`, none of them NULL, the next
-- one comes from the list or, at its end, is NULL. The first argument says what realloc() answers.
unfoldable pub collect : Bool → List CString → List CString → Vector → Collected
collect more_memory [] args v =
    let full = leb v.argv_size (length args + 1) in
    let v' = if full then resize v else v in
    if full && not more_memory
    then not_resized
    else if leb v'.room (length args)
    then overrun
    else collected args
collect more_memory (x ∷ xs) args v =
    let full = leb v.argv_size (length args + 1) in
    let v' = if full then resize v else v in
    let rest = collect more_memory xs (args ++ x ∷ []) v' in
    if full && not more_memory
    then not_resized
    else if leb v'.room (length args)
    then overrun
    else rest

-- `arg` and the arguments that follow it, up to NULL.
unfoldable pub build_argv : Bool → List CString → Collected
unfolding collect
build_argv more_memory [] = collected []
build_argv more_memory (arg ∷ rest) =
    collect more_memory rest (arg ∷ []) (record { argv_size = 100; room = 100 })

-- `for (j = 0; j <= argc; j++) shArgv[j + 1] = argv[j];`, from `j` on.
unfoldable pub copy_argv :
    List (Option CString) → ℕ → List (Option CString) → Option (List (Option CString))
unfolding store
copy_argv [] j sh_argv = some sh_argv
copy_argv (a ∷ argv) j sh_argv = elim (store sh_argv (j + 1) a) [
  | none ↦ none
  | some sh_argv' ↦ copy_argv argv (j + 1) sh_argv'
]

-- `argv[0]` to `argv[argc]`: the items, the NULL that `argc` counts, and the slot behind it.
abbrev pub slots : List CString → List (Option CString)
slots [] = none ∷ none ∷ []
slots (a ∷ args) = some a ∷ slots args

-- The argument vector for the shell, or `none` for a write past the end of `shArgv`, which has
-- `argc + 1` slots.
unfoldable pub sh_vector : List CString → Option (List (Option CString))
unfolding copy_argv
sh_vector args = copy_argv (slots args) 0 (some shell_path ∷ replicate (length args + 1) none)

abbrev pub has_slash : CString → Bool
has_slash [] = false
has_slash (c ∷ cs) = if c == b'/' then true else has_slash cs

-- PATH, cut at each ':'.
unfoldable pub prefixes : CString → List CString
unfolding split_on
prefixes path = split_on b':' path

-- The pathname for a prefix, "." standing for an empty one.
abbrev pub pathname_of : CString → CString → CString
pathname_of filename [] = b'.' ∷ b'/' ∷ filename
pathname_of filename (c ∷ p) = (c ∷ p) ++ b'/' ∷ filename

abbrev pub path_or_dot : Option CString → CString
path_or_dot none = b'.' ∷ []
path_or_dot (some []) = b'.' ∷ []
path_or_dot (some (c ∷ cs)) = c ∷ cs

-- `argv` as execve() takes it.
abbrev pub vector : List CString → List (Option CString)
vector [] = none ∷ []
vector (a ∷ args) = some a ∷ vector args

module _ (execve : CString → List (Option CString) → Option ℕ) (args : List CString) where
  -- `execShScript`, and what the caller does if that returns.
  unfoldable pub exec_sh_script : Outcome → Outcome
  unfolding sh_vector
  exec_sh_script next = elim (sh_vector args) [
    | none ↦ fault
    | some sh_argv ↦ elim (execve shell_path sh_argv) [
      | none ↦ replaced shell_path sh_argv
      | some e ↦ next
    ]
  ]

  -- The loop over the prefixes, with `savedErrno` and `fndEACCES`.
  unfoldable pub try_prefixes : CString → List CString → ℕ → Bool → Outcome
  unfolding exec_sh_script
  try_prefixes filename [] saved_errno fnd_eacces =
      returned (if fnd_eacces then eacces else saved_errno)
  try_prefixes filename (p ∷ ps) saved_errno fnd_eacces =
      elim (execve (pathname_of filename p) (vector args)) [
        | none ↦ replaced (pathname_of filename p) (vector args)
        | some e ↦ elim (e == eacces) [
          | true ↦ try_prefixes filename ps e true
          | false ↦ elim (e == enoexec) [
            | true ↦ exec_sh_script (try_prefixes filename ps e fnd_eacces)
            | false ↦ try_prefixes filename ps e fnd_eacces
          ]
        ]
      ]

  unfoldable pub exec_file : CString → Option CString → Outcome
  unfolding exec_sh_script try_prefixes prefixes
  exec_file filename path =
      if has_slash filename
      then (elim (execve filename (vector args)) [
        | none ↦ replaced filename (vector args)
        | some e ↦ if e == enoexec then exec_sh_script (returned e) else returned e
      ])
      else try_prefixes filename (prefixes (path_or_dot path)) 0 false

-- What calloc() for `argv`, realloc() and calloc() for `envp` answer.
pub record Memory : Type 0 where
  pub argv_memory : Bool
  pub more_memory : Bool
  pub envp_memory : Bool

unfoldable pub execlp :
    (CString → List (Option CString) → Option ℕ)
    → Memory
    → CString
    → List CString
    → Option CString
    → Outcome
unfolding build_argv exec_file
execlp execve m filename args path =
    if m.argv_memory
    then (elim (build_argv m.more_memory args) [
      | collected argv ↦ if m.envp_memory then exec_file execve argv filename path else no_memory
      | not_resized ↦ no_memory
      | overrun ↦ fault
    ])
    else no_memory
