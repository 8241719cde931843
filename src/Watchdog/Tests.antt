-- ===== src/Watchdog/Tests.antt =====
-- Runs of src/watchdog.rs, and its theorems at concrete inputs.
use uds_policy.Common.{
  ◌/◌, ◌≡◌, ◌↔◌, refl, true, false, none, some, List, [], ◌∷◌, codes, decimal, parse_uint, arith,
  if◌then◌else◌,
}
use uds_policy.System.{from_secs, from_micros, run}
use uds_policy.System.Sample.{sample}
use uds_policy.Watchdog.Liveness.{Liveness, bounded, streaming}
use uds_policy.Watchdog.Activity
use uds_policy.Watchdog.Activity.{
  ServeActivity, is_alive, call_started, call_finished, tick, progressed,
}
use uds_policy.Watchdog.Activity.History.{
  Stamp, started, turned, progress, recorded, running, verdict, is_alive-verdict,
}
use uds_policy.Watchdog.Activity.Time.{apply_all, poisoned_never_alive}
use uds_policy.Watchdog.Heartbeat.{heartbeat_from, heartbeat}
use uds_policy.Watchdog.Heartbeat.Interval.{
  Reads, IsForMe, heartbeat_from-decimal, zero_interval_iff,
}
use uds_policy.Watchdog.Heartbeat.Pets.{Notifiable}
use uds_policy.Watchdog.Timeline.{Section, stamp, look, rounds, heartbeat_interleaved}
use uds_policy.Watchdog.Notify.{notify_to}
use uds_policy.Watchdog.Notify.Sent.{sent, obstructed, addressed, notify_to-sent, to_name}

-- An idle ceiling of 90 seconds.
abbrev watched : Liveness
watched = record {
  idle_tick_ceiling = some (from_secs 90);
  longest_bounded_call = from_secs 600;
  longest_silent_stream = none;
}

busy_not_wedged : is_alive (call_started bounded 0 (Activity.new 0)) (from_secs 300) watched ≡ true
unfolding is_alive call_started Activity.new
busy_not_wedged = refl

overstayed : is_alive (call_started bounded 0 (Activity.new 0)) (from_secs 610) watched ≡ false
unfolding is_alive call_started Activity.new
overstayed = refl

open_stream : is_alive (call_started streaming 0 (Activity.new 0)) (from_secs 86_400) watched ≡ true
unfolding is_alive call_started Activity.new
open_stream = refl

finished_is_idle :
    is_alive (call_finished 0 (call_started bounded 0 (Activity.new 0))) (from_secs 100) watched
    ≡ false
unfolding is_alive call_started call_finished Activity.new
finished_is_idle = refl

half_of_a_minute : heartbeat_from (some (codes "60000000")) none 42 ≡ some (from_secs 30)
unfolding heartbeat_from parse_uint
half_of_a_minute = refl

another_pid : heartbeat_from (some (codes "2000000")) (some (codes "99")) 42 ≡ none
unfolding heartbeat_from parse_uint
another_pid = refl

abstract_name :
    sent (run sample (notify_to (codes "@n") (codes "READY=1")) 0).trace
    ≡ to_name (codes "n") (codes "READY=1") ∷ []
unfolding notify_to
abstract_name = refl

abbrev busy : List Stamp
busy = progress 7 ∷ started bounded 5 ∷ turned 3 ∷ []

is_alive-verdict_example :
    is_alive (recorded 0 busy) 9 watched ≡ verdict 0 watched 9 busy (running busy)
is_alive-verdict_example = is_alive-verdict 0 watched 9 busy

abbrev idle : ServeActivity
idle = record { state = record { last_tick = 0; in_flight = none }; poisoned = false }

abbrev panicked : ServeActivity
panicked = record { state = record { last_tick = 0; in_flight = none }; poisoned = true }

panicked_is_dead : is_alive (apply_all busy panicked) 9 watched ≡ false
panicked_is_dead = poisoned_never_alive busy panicked 9 watched refl

heartbeat_from-decimal_example :
    (heartbeat_from (some (decimal 60000000)) (some (decimal 42)) 42
      ≡ some (from_micros (60000000 / 2)))
    × (heartbeat_from (some (decimal 60000000)) none 42 ≡ some (from_micros (60000000 / 2)))
    × (heartbeat_from (some (decimal 60000000)) (some (decimal 99)) 42 ≡ none)
heartbeat_from-decimal_example =
    heartbeat_from-decimal 60000000 42 99 (omega arith) (omega arith) (omega arith) (omega arith)
      (omega arith)

zero_interval_iff_example :
    (heartbeat_from (some (codes "1")) none 42 ≡ some 0)
    ↔ (Reads (some (codes "1")) 1 × IsForMe none 42)
zero_interval_iff_example = zero_interval_iff (some (codes "1")) none 42

notify_to-sent_example : sent (run sample (notify_to (codes "@n") (codes "READY=1")) 0).trace ≡ (
    if obstructed (run sample (notify_to (codes "@n") (codes "READY=1")) 0).trace
    then []
    else addressed (codes "@n") (codes "READY=1"))
notify_to-sent_example = notify_to-sent sample (codes "@n") (codes "READY=1") 0

-- A turn, a look in time, a call that outlives its ceiling, and a look too late.
abbrev wedged : List Section
wedged = stamp (turned 3) ∷ look 5 ∷ stamp (started bounded 6) ∷ look (from_secs 700) ∷ []

notifiable : Notifiable sample b'@' (codes "notify")
notifiable = record { variable_set = λ s. refl; socket_made = λ s. refl; address_made = λ s. refl }

heartbeat_interleaved_example :
    sent (run sample (heartbeat watched (rounds (recorded 0 []) wedged)) 0).trace
    ≡ to_name (codes "notify") (codes "WATCHDOG=1") ∷ []
heartbeat_interleaved_example =
    heartbeat_interleaved sample b'@' (codes "notify") notifiable 0 watched wedged 0

-- Two rounds, of which the first finds a record that is alive.
abbrev looked_at : List ServeActivity
looked_at = Activity.new 0 ∷ call_started bounded 0 (Activity.new 0) ∷ []
