-- ===== src/Threads/ProdCondvar/Tests.antt =====
-- A run of prod_condvar with one thread of one unit, and the theorems at its states.
use linux_programming_interf.Common.{ℕ, ◌≡◌, refl, false, true, List, [], ◌∷◌, arith}
use linux_programming_interf.Common.Sums.{sum}
use linux_programming_interf.Common.Steps.{Run, start, then}
use linux_programming_interf.Threads.ProdCondvar.{
  looping, Producer, waiting, exited, free_waiting, state_of, Step, create, created, produce,
  signal, lock, sleep, relock, proceed, consume, unlock, leave, initial,
}
use linux_programming_interf.Threads.ProdCondvar.Units.{left_of, signalling_of, exited-consumed}

abbrev one : List ℕ
one = 1 ∷ []

abbrev before : List Producer
before = record { left = 1; phase = looping } ∷ []

abbrev after : List Producer
after = record { left = 0; phase = looping } ∷ []

asleep : Run Step (initial one) (state_of before 0 1 0 false waiting)
asleep = then (then (then (then start create) created) lock) (sleep refl)

consumed_one : Run Step (initial one) (state_of after 0 1 1 true exited)
consumed_one =
    then
      (then
        (then
          (then (then (then (then asleep (produce 0 0 free_waiting refl)) (signal 0 0 refl)) relock)
            (proceed (λ e. omega (arith, e))))
          (consume (omega arith)))
        (unlock refl))
      leave

exited-consumed_example :
    (sum left_of before ≡ 1) × (sum signalling_of after ≡ 0) × (sum left_of after ≡ 0)
exited-consumed_example = exited-consumed one after 0 1 1 true consumed_one
