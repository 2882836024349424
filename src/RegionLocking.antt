-- ===== src/RegionLocking.antt =====
-- book-src/filelock/region_locking.c: locks on file regions by fcntl(), which is a parameter. It
-- answers a command and a lock with the lock as it leaves it, or `none` for -1.
mod Tests
use linux_programming_interf.Common.{
  ℕ, ◌≡◌, refl, sym, Option, none, some, inl, inr, Bool-cases, true, false, if◌then◌else◌, ◌==◌,
}
use linux_programming_interf.Common.Int.{ℤ, pos, minus_one}

-- `struct flock`
pub record Flock : Type 0 where
  pub l_type : ℕ
  pub l_whence : ℕ
  pub l_start : ℤ
  pub l_len : ℤ
  pub l_pid : ℕ

pub data Command : Type 0 where
  f_getlk : Command
  f_setlk : Command
  f_setlkw : Command

abbrev pub f_unlck : ℕ
f_unlck = 2

module _ (fcntl : Command → Flock → Option Flock) where
  -- `l_pid` is not set by the code; `pid` is what it happens to be.
  unfoldable pub lock_reg : Command → ℕ → ℕ → ℤ → ℤ → ℕ → ℤ
  lock_reg cmd type whence start len pid =
      elim (fcntl cmd
        (record { l_type = type; l_whence = whence; l_start = start; l_len = len; l_pid = pid })) [
          | none ↦ minus_one
          | some fl ↦ pos 0
        ]

  unfoldable pub lock_region : ℕ → ℕ → ℤ → ℤ → ℕ → ℤ
  unfolding lock_reg
  lock_region type whence start len pid = lock_reg f_setlk type whence start len pid

  unfoldable pub lock_region_wait : ℕ → ℕ → ℤ → ℤ → ℕ → ℤ
  unfolding lock_reg
  lock_region_wait type whence start len pid = lock_reg f_setlkw type whence start len pid

  unfoldable pub region_is_locked : ℕ → ℕ → ℤ → ℤ → ℕ → ℤ
  region_is_locked type whence start len pid =
      elim (fcntl f_getlk
        (record { l_type = type; l_whence = whence; l_start = start; l_len = len; l_pid = pid })) [
          | none ↦ minus_one
          | some fl ↦ if fl.l_type == f_unlck then pos 0 else pos fl.l_pid
        ]
