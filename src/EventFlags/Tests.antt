-- ===== src/EventFlags/Tests.antt =====
-- Runs of the event flags, and the theorem at a concrete wait.
use linux_programming_interf.Common.{◌≡◌, refl, true, false, some, List, [], ◌∷◌}
use linux_programming_interf.Common.Int.{pos}
use linux_programming_interf.Sockets.ReadLine.{eintr}
use linux_programming_interf.EventFlags.{
  Moment, value, semop_error, wait_for_event_flag, set_event_flag, clear_event_flag, get_flag_state,
}
use linux_programming_interf.EventFlags.Waits.{Waits, wait_for_event_flag-Waits}

abbrev moments : List Moment
moments = value 1 ∷ semop_error eintr ∷ value 0 ∷ value 1 ∷ []

set_then_get : get_flag_state true (set_event_flag true 1).1 ≡ (pos 0, some true)
unfolding set_event_flag get_flag_state
set_then_get = refl

clear_then_get : get_flag_state true (clear_event_flag true 0).1 ≡ (pos 0, some false)
unfolding clear_event_flag get_flag_state
clear_then_get = refl

wait_for_event_flag-Waits_example : Waits moments (wait_for_event_flag moments)
wait_for_event_flag-Waits_example = wait_for_event_flag-Waits moments
