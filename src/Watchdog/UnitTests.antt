-- ===== src/Watchdog/UnitTests.antt =====
-- The unit tests of src/watchdog.rs, under their names. A test that reads the clock is given its
-- readings, in the order in which it makes them.
mod Pass
mod Datagrams
use uds_policy.Common.{ℕ, ◌+◌, Bool, true, false, not, ◌&&◌, Option, none, some, Text, codes, ◌==◌}
use uds_policy.System.{Duration, Instant, from_secs}
use uds_policy.Watchdog.Liveness
use uds_policy.Watchdog.Liveness.{
  Liveness, bounded, streaming, with_idle_tick_ceiling, with_silent_stream_ceiling,
}
use uds_policy.Watchdog.Activity
use uds_policy.Watchdog.Activity.{
  ServeActivity, tick, call_started, progressed, call_finished, is_alive,
}
use uds_policy.Watchdog.Heartbeat.{heartbeat_from}

-- `IDLE_CEILING`
abbrev pub idle_ceiling : Duration
idle_ceiling = from_secs 90

unfoldable pub watched : Liveness
unfolding with_idle_tick_ceiling Liveness.new
watched = with_idle_tick_ceiling idle_ceiling Liveness.new

-- `watched()` with a ceiling for silent streams
stream_watched : Liveness
unfolding watched with_silent_stream_ceiling
stream_watched = with_silent_stream_ceiling (from_secs 60) watched

unfoldable pub idle_loop_with_fresh_tick_is_alive : Instant → Instant → Instant → Bool
idle_loop_with_fresh_tick_is_alive t u v =
    is_alive (tick u (Activity.new t)) (v + from_secs 10) watched

unfoldable pub idle_loop_with_stale_tick_is_wedged : Instant → Instant → Instant → Bool
idle_loop_with_stale_tick_is_wedged t u v =
    not (is_alive (tick u (Activity.new t)) (v + idle_ceiling + from_secs 10) watched)

unfoldable pub idle_loop_without_accept_timeout_is_trusted : Instant → Instant → Instant → Bool
idle_loop_without_accept_timeout_is_trusted t u v =
    is_alive (tick u (Activity.new t)) (v + idle_ceiling + from_secs 3600) Liveness.new

unfoldable pub long_running_bounded_call_within_ceiling_is_busy_not_wedged :
    Instant → Instant → Instant → Bool
long_running_bounded_call_within_ceiling_is_busy_not_wedged t u v =
    is_alive (call_started bounded u (Activity.new t)) (v + from_secs 300) watched

unfoldable pub bounded_call_overstaying_the_ceiling_is_wedged : Instant → Instant → Instant → Bool
bounded_call_overstaying_the_ceiling_is_wedged t u v = not (
    is_alive (call_started bounded u (Activity.new t))
      (v + Liveness.new.longest_bounded_call + from_secs 10) watched)

unfoldable pub an_open_stream_is_not_a_wedge : Instant → Instant → Instant → Bool
an_open_stream_is_not_a_wedge t u v =
    is_alive (call_started streaming u (Activity.new t)) (v + from_secs 86_400) watched

unfoldable pub a_stream_that_stops_progressing_is_wedged_once_a_ceiling_is_set :
    Instant → Instant → Instant → Instant → Bool
unfolding stream_watched
a_stream_that_stops_progressing_is_wedged_once_a_ceiling_is_set t u v w =
    let activity = call_started streaming u (Activity.new t) in
    is_alive activity (v + from_secs 30) stream_watched
    && not (is_alive activity (w + from_secs 90) stream_watched)

unfoldable pub stamping_progress_keeps_a_watched_stream_alive :
    Instant → Instant → Instant → Instant → Bool
unfolding stream_watched
stamping_progress_keeps_a_watched_stream_alive t u v w =
    is_alive (progressed v (call_started streaming u (Activity.new t))) (w + from_secs 30)
      stream_watched

unfoldable pub progress_does_not_extend_a_bounded_call :
    Instant → Instant → Instant → Instant → Bool
progress_does_not_extend_a_bounded_call t u v w = not (
    is_alive (progressed v (call_started bounded u (Activity.new t)))
      (w + Liveness.new.longest_bounded_call + from_secs 10) watched)

unfoldable pub finished_call_returns_to_idle_liveness :
    Instant → Instant → Instant → Instant → Instant → Bool
finished_call_returns_to_idle_liveness t u v w x =
    let activity = call_finished v (call_started bounded u (Activity.new t)) in
    is_alive activity (w + from_secs 10) watched
    && not (is_alive activity (x + idle_ceiling + from_secs 10) watched)

-- `assert_eq!` of two optional durations
abbrev pub same_interval : Option Duration → Option Duration → Bool
same_interval none none = true
same_interval (some d) (some e) = d == e
same_interval _ _ = false

unfoldable pub no_watchdog_env_means_no_heartbeat : Bool
no_watchdog_env_means_no_heartbeat = same_interval (heartbeat_from none none 42) none

unfoldable pub heartbeat_is_half_the_configured_timeout : Bool
heartbeat_is_half_the_configured_timeout =
    same_interval (heartbeat_from (some (codes "60000000")) none 42) (some (from_secs 30))

unfoldable pub honors_watchdog_pid_when_it_matches : Bool
honors_watchdog_pid_when_it_matches =
    same_interval (heartbeat_from (some (codes "2000000")) (some (codes "42")) 42)
      (some (from_secs 1))

unfoldable pub ignores_watchdog_aimed_at_another_pid : Bool
ignores_watchdog_aimed_at_another_pid =
    same_interval (heartbeat_from (some (codes "2000000")) (some (codes "99")) 42) none

unfoldable pub rejects_zero_and_malformed_timeouts : Bool
rejects_zero_and_malformed_timeouts =
    same_interval (heartbeat_from (some (codes "0")) none 42) none
    && same_interval (heartbeat_from (some (codes "not-a-number")) none 42) none
