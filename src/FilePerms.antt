-- ===== src/FilePerms.antt =====
-- `filePermStr` of book-src/files/file_perms.c: the string that ls(1) shows for a permissions mask.
pub mod Letters
mod Tests
use linux_programming_interf.Common.{
  ℕ, ◌/◌, ◌%◌, ◌^◌, Bool, ◌&&◌, List, [], ◌∷◌, ◌==◌, if◌then◌else◌,
}

-- `word & (1 << k)`
abbrev pub has_bit : ℕ → ℕ → Bool
has_bit word k = (word / 2 ^ k) % 2 == 1

abbrev pub fp_special : ℕ
fp_special = 1

-- `bit ? letter : '-'`
abbrev pub letter : ℕ → Bool → ℕ
letter c bit = if bit then c else b'-'

-- The execute field: the special bit shows if the flag asks for it.
abbrev pub execute : ℕ → ℕ → Bool → Bool → Bool → ℕ
execute lower upper flag x special =
    if x then if special && flag then lower else b'x' else if special && flag then upper else b'-'

unfoldable pub file_perm_str : ℕ → ℕ → List ℕ
file_perm_str perm flags =
    letter b'r' (has_bit perm 8)
    ∷ letter b'w' (has_bit perm 7)
    ∷ execute b's' b'S' (has_bit flags 0) (has_bit perm 6) (has_bit perm 11)
    ∷ letter b'r' (has_bit perm 5)
    ∷ letter b'w' (has_bit perm 4)
    ∷ execute b's' b'S' (has_bit flags 0) (has_bit perm 3) (has_bit perm 10)
    ∷ letter b'r' (has_bit perm 2)
    ∷ letter b'w' (has_bit perm 1)
    ∷ execute b't' b'T' (has_bit flags 0) (has_bit perm 0) (has_bit perm 9)
    ∷ []
