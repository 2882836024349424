-- ===== src/Environ.antt =====
-- `unsetenv` and `setenv` of book-src/proc/setenv.c. `environ` is the list of its strings, without
-- the NULL at its end; a string is its bytes, without the null at its end, and NULL is `none`.
pub mod Lookup
mod Tests
use linux_programming_interf.Common.{
  ℕ, Bool, true, false, ◌||◌, Option, none, some, List, [], ◌∷◌, ◌++◌, ◌==◌, if◌then◌else◌,
}
use linux_programming_interf.Common.Text.{CString}

-- The two results: the list, and 0 or -1 with its reason.
pub data Answer : Type 0 where
  success : Answer
  invalid : Answer
  no_memory : Answer

-- `strncmp(entry, name, len) == 0 && entry[len] == '='`, with what stands behind the '='.
unfoldable pub value_of : CString → CString → Option CString
value_of [] [] = none
value_of [] (c ∷ cs) = if c == b'=' then some cs else none
value_of (n ∷ name) [] = none
value_of (n ∷ name) (c ∷ cs) = let later = value_of name cs in if n == c then later else none

-- The C library's getenv(): the value of the first entry for the name.
unfoldable pub getenv : CString → List CString → Option CString
unfolding value_of
getenv name [] = none
getenv name (e ∷ es) = elim (value_of name e) [ none ↦ getenv name es | some v ↦ some v ]

abbrev pub has_equals : CString → Bool
has_equals [] = false
has_equals (c ∷ cs) = c == b'=' || has_equals cs

-- `name == NULL || name[0] == '\0' || strchr(name, '=') != NULL`
abbrev pub is_bad : Option CString → Bool
is_bad none = true
is_bad (some []) = true
is_bad (some (c ∷ cs)) = has_equals (c ∷ cs)

-- The loop of `unsetenv`: an entry for the name is removed and the place looked at again.
unfoldable pub remove_all : CString → List CString → List CString
unfolding value_of
remove_all name [] = []
remove_all name (e ∷ es) = elim (value_of name e) [
  | none ↦ e ∷ remove_all name es
  | some v ↦ remove_all name es
]

unfoldable pub unsetenv : Option CString → List CString → Answer × List CString
unfolding remove_all
unsetenv none environ = (invalid, environ)
unsetenv (some name) environ =
    if is_bad (some name) then (invalid, environ) else (success, remove_all name environ)

-- The C library's putenv() for an entry of the name: it takes the place of the first one there is.
unfoldable pub putenv : CString → CString → List CString → List CString
unfolding value_of
putenv name entry [] = entry ∷ []
putenv name entry (e ∷ es) = elim (value_of name e) [
  | none ↦ e ∷ putenv name entry es
  | some v ↦ entry ∷ es
]

-- `setenv` behind its checks; the Booleans say whether malloc() and putenv() succeed.
unfoldable pub replace : Bool → Bool → CString → CString → List CString → Answer × List CString
unfolding remove_all putenv
replace memory put name value environ =
    if memory
    then (if put
        then (success, putenv name (name ++ b'=' ∷ value) (remove_all name environ))
        else (no_memory, remove_all name environ))
    else (no_memory, remove_all name environ)

-- `getenv(name) != NULL && overwrite == 0`
abbrev pub stays : Option CString → Bool → Bool
stays none overwrite = false
stays (some v) true = false
stays (some v) false = true

unfoldable pub setenv :
    Bool → Bool → Option CString → Option CString → Bool → List CString → Answer × List CString
unfolding getenv replace
setenv memory put none value overwrite environ = (invalid, environ)
setenv memory put (some name) none overwrite environ = (invalid, environ)
setenv memory put (some name) (some value) overwrite environ =
    if is_bad (some name)
    then (invalid, environ)
    else if stays (getenv name environ) overwrite
    then (success, environ)
    else replace memory put name value environ
