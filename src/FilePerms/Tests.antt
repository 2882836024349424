-- ===== src/FilePerms/Tests.antt =====
-- Strings of two masks, and the theorem at one.
use linux_programming_interf.Common.{◌≡◌, refl, [], ◌∷◌}
use linux_programming_interf.FilePerms.{fp_special, file_perm_str}

-- 04755
set_user_id :
    file_perm_str 2541 fp_special
    ≡ b'r' ∷ b'w' ∷ b's' ∷ b'r' ∷ b'-' ∷ b'x' ∷ b'r' ∷ b'-' ∷ b'x' ∷ []
unfolding file_perm_str
set_user_id = refl
