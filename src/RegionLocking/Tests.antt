-- ===== src/RegionLocking/Tests.antt =====
-- Answers of `regionIsLocked` for two kernels.
use linux_programming_interf.Common.{◌≡◌, refl, Option, none, some}
use linux_programming_interf.Common.Int.{pos, minus_one}
use linux_programming_interf.RegionLocking.{Flock, Command, f_unlck, lock_region, region_is_locked}

-- No other process has a lock.
abbrev unlocked : Command → Flock → Option Flock
unlocked cmd fl = some (record fl { l_type = f_unlck })

-- The process 42 has one.
abbrev locked : Command → Flock → Option Flock
locked cmd fl = some (record fl { l_pid = 42 })

free_region : region_is_locked unlocked 1 0 (pos 0) (pos 10) 0 ≡ pos 0
unfolding region_is_locked
free_region = refl

taken_region : region_is_locked locked 1 0 (pos 0) (pos 10) 0 ≡ pos 42
unfolding region_is_locked
taken_region = refl

failing_lock : lock_region (λ cmd fl. none) 1 0 (pos 0) (pos 10) 0 ≡ minus_one
unfolding lock_region
failing_lock = refl
