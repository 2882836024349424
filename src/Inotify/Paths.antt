-- ===== src/Inotify/Paths.antt =====
-- Pathnames of inotify_dtree.c as the bytes before the terminating null, and the C string calls
-- that it makes on them.
pub mod Under
use linux_programming_interf.Common.{
  ℕ, ◌-◌, Bool, true, false, ◌&&◌, none, some, List, [], ◌∷◌, ◌++◌, ◌==◌, length, get_elem?, take,
  drop, if◌then◌else◌,
}

abbrev pub FilePath : Type 0
FilePath = List ℕ

-- PATH_MAX and NAME_MAX of <limits.h>
abbrev pub path_max : ℕ
path_max = 4096

abbrev pub name_max : ℕ
name_max = 255

-- `snprintf(dst, size, …)` keeps `size - 1` bytes.
unfoldable pub snprintf : ℕ → List ℕ → List ℕ
snprintf size s = take (size - 1) s

-- `strncpy(dst, src, n)`, read back as a string of at most `n` bytes.
unfoldable pub strncpy : List ℕ → ℕ → List ℕ
strncpy s n = take n s

-- `"%s/%s"`
abbrev pub join : FilePath → List ℕ → FilePath
join dir name = dir ++ b'/' ∷ name

-- `strcmp(s, t) == 0`
pub strcmp_eq : List ℕ → List ℕ → Bool
strcmp_eq [] [] = true
strcmp_eq [] (d ∷ t) = false
strcmp_eq (c ∷ s) [] = false
strcmp_eq (c ∷ s) (d ∷ t) = (c == d) && strcmp_eq s t

-- `strncmp(s, t, strlen(s)) == 0`
pub strncmp_eq : List ℕ → List ℕ → Bool
strncmp_eq [] t = true
strncmp_eq (c ∷ s) [] = false
strncmp_eq (c ∷ s) (d ∷ t) = (c == d) && strncmp_eq s t

-- `path[len] == '/' || path[len] == '\0'`, for a `len` up to the string's length.
pub ends_component : FilePath → ℕ → Bool
ends_component path len = elim (get_elem? path len) [ none ↦ true | some c ↦ c == b'/' ]

-- The test of rewriteCachedPaths() and zapSubtree(): `path` is `dir` or lies below it.
unfoldable pub is_under : FilePath → FilePath → Bool
unfolding strncmp_eq ends_component
is_under dir path = strncmp_eq dir path && ends_component path (length dir)

-- The body of the loop of rewriteCachedPaths().
unfoldable pub rewrite_path : FilePath → FilePath → FilePath → FilePath
unfolding is_under
rewrite_path full_path new_prefix path =
    if is_under full_path path
    then strncpy (snprintf path_max (new_prefix ++ drop (length full_path) path)) path_max
    else path
