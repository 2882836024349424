-- ===== src/Threads/Multijoin/Counts.antt =====
-- What the counters of the program count, for one entry.
use linux_programming_interf.Common.{ℕ, ◌+◌, ◌≡◌, List, [], ◌∷◌, arith}
use linux_programming_interf.Common.Sums.{sum}
use linux_programming_interf.Threads.Multijoin.{
  Tstate, ts_alive, ts_terminated, ts_joined, Phase, working, signalling, ended, Entry,
}

abbrev is_terminated : Tstate → ℕ
is_terminated ts_alive = 0
is_terminated ts_terminated = 1
is_terminated ts_joined = 0

abbrev is_unjoined : Tstate → ℕ
is_unjoined ts_alive = 1
is_unjoined ts_terminated = 1
is_unjoined ts_joined = 0

abbrev is_alive : Tstate → ℕ
is_alive ts_alive = 1
is_alive ts_terminated = 0
is_alive ts_joined = 0

abbrev is_signalling : Phase → ℕ
is_signalling working = 0
is_signalling signalling = 1
is_signalling ended = 0

abbrev pub terminated_1 : Entry → ℕ
terminated_1 e = is_terminated e.state

abbrev pub unjoined_1 : Entry → ℕ
unjoined_1 e = is_unjoined e.state

abbrev pub alive_1 : Entry → ℕ
alive_1 e = is_alive e.state

abbrev pub signalling_1 : Entry → ℕ
signalling_1 e = is_signalling e.phase

unjoined_kind : (st : Tstate) → is_unjoined st ≡ is_alive st + is_terminated st
unjoined_kind ts_alive = omega arith
unjoined_kind ts_terminated = omega arith
unjoined_kind ts_joined = omega arith

-- An entry that is not joined is alive or terminated.
pub sum-unjoined : (es : List Entry) → sum unjoined_1 es ≡ sum alive_1 es + sum terminated_1 es
sum-unjoined [] = omega arith
sum-unjoined (e ∷ es) = omega (arith, unjoined_kind e.state, sum-unjoined es)
