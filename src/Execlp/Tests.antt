-- ===== src/Execlp/Tests.antt =====
-- Runs of `execlp`, and its theorems at concrete inputs.
use linux_programming_interf.Common.{
  ℕ, ◌≤◌, ◌≡◌, ◌⊎◌, refl, true, false, Option, none, some, List, [], ◌∷◌, length, ◌==◌,
  if◌then◌else◌,
}
use linux_programming_interf.Common.Text.{CString}
use linux_programming_interf.Execlp.{
  enoexec, eacces, replaced, returned, fault, collected, overrun, build_argv, prefixes,
  try_prefixes, execlp, Memory,
}
use linux_programming_interf.Execlp.Arguments.{build_argv-bounds}
use linux_programming_interf.Execlp.Search.{Searched, try_prefixes-Searched}

abbrev second : CString → ℕ
second [] = 0
second (c ∷ []) = 0
second (c ∷ d ∷ cs) = d

-- A name under "/a" may not be run, one under "/b" is a program, one under "/c" is a script, and there
-- is no other file.
abbrev kernel : CString → List (Option CString) → Option ℕ
kernel path argv =
    if second path == b'a'
    then some eacces
    else if second path == b'b'
    then none
    else if second path == b'c'
    then some enoexec
    else some 2

abbrev name : CString
name = b'f' ∷ []

abbrev args : List CString
args = name ∷ []

abbrev path : CString
path = b'/' ∷ b'a' ∷ b':' ∷ b'/' ∷ b'b' ∷ b':' ∷ b'/' ∷ b'c' ∷ []

abbrev plenty : Memory
plenty = record { argv_memory = true; more_memory = true; envp_memory = true }

runs_second :
    execlp kernel plenty name args (some path)
    ≡ replaced (b'/' ∷ b'b' ∷ b'/' ∷ b'f' ∷ []) (some name ∷ none ∷ [])
unfolding execlp
runs_second = refl

denied_wins :
    execlp kernel plenty name args (some (b'/' ∷ b'a' ∷ b':' ∷ b'/' ∷ b'd' ∷ [])) ≡ returned eacces
unfolding execlp
denied_wins = refl

script_faults : execlp kernel plenty name args (some (b'/' ∷ b'c' ∷ [])) ≡ fault
unfolding execlp
script_faults = refl

try_prefixes-Searched_example :
    Searched kernel args name 0 false
      (prefixes path)
      (try_prefixes kernel args name (prefixes path) 0 false)
try_prefixes-Searched_example = try_prefixes-Searched kernel args name (prefixes path) 0 false

build_argv-bounds_example :
    ((length args ≤ 98) × (build_argv true args ≡ collected args))
    ⊎ ((99 ≤ length args) × (build_argv true args ≡ overrun))
build_argv-bounds_example = build_argv-bounds args
