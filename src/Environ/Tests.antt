-- ===== src/Environ/Tests.antt =====
-- Runs of `setenv` and `unsetenv`, and their theorems at concrete environments.
use linux_programming_interf.Common.{◌≡◌, refl, true, false, some, List, [], ◌∷◌}
use linux_programming_interf.Common.Text.{CString}
use linux_programming_interf.Environ.{success, invalid, no_memory, getenv, unsetenv, setenv}
use linux_programming_interf.Environ.Lookup.{Leaves, chosen, setenv-Leaves}

-- "x=1", "y=2" and "x=3"
abbrev environ : List CString
environ = (b'x' ∷ b'=' ∷ b'1' ∷ []) ∷ (b'y' ∷ b'=' ∷ b'2' ∷ []) ∷ (b'x' ∷ b'=' ∷ b'3' ∷ []) ∷ []

abbrev x : CString
x = b'x' ∷ []

abbrev seven : CString
seven = b'7' ∷ []

all_removed : unsetenv (some x) environ ≡ (success, (b'y' ∷ b'=' ∷ b'2' ∷ []) ∷ [])
unfolding unsetenv
all_removed = refl

bad_name : setenv true true (some (b'x' ∷ b'=' ∷ [])) (some seven) true environ ≡ (invalid, environ)
unfolding setenv
bad_name = refl

-- A failing malloc() leaves the name without a value.
lost :
    setenv false true (some x) (some seven) true environ
    ≡ (no_memory, (b'y' ∷ b'=' ∷ b'2' ∷ []) ∷ [])
unfolding setenv
lost = refl

setenv-Leaves_example :
    Leaves x
      (chosen (getenv x environ) true seven)
      environ
      (setenv true true (some x) (some seven) true environ)
setenv-Leaves_example = setenv-Leaves x seven true environ refl
