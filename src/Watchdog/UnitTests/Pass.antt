-- ===== src/Watchdog/UnitTests/Pass.antt =====
-- That the unit tests of src/watchdog.rs pass on the model, on every clock that is quick enough.
use uds_policy.Common.{◌+◌, ◌≤◌, ◌<◌, ◌≡◌, refl, true, [], ◌∷◌, All, arith, parse_uint}
use uds_policy.System.{Instant, from_secs}
use uds_policy.Watchdog.Liveness
use uds_policy.Watchdog.Activity
use uds_policy.Watchdog.Activity.{tick, call_started, progressed, call_finished, is_alive}
use uds_policy.Watchdog.Heartbeat.{heartbeat_from}
use uds_policy.Watchdog.UnitTests.{
  watched, idle_loop_with_fresh_tick_is_alive, idle_loop_with_stale_tick_is_wedged,
  idle_loop_without_accept_timeout_is_trusted,
  long_running_bounded_call_within_ceiling_is_busy_not_wedged,
  bounded_call_overstaying_the_ceiling_is_wedged, an_open_stream_is_not_a_wedge,
  a_stream_that_stops_progressing_is_wedged_once_a_ceiling_is_set,
  stamping_progress_keeps_a_watched_stream_alive, progress_does_not_extend_a_bounded_call,
  finished_call_returns_to_idle_liveness, no_watchdog_env_means_no_heartbeat,
  heartbeat_is_half_the_configured_timeout, honors_watchdog_pid_when_it_matches,
  ignores_watchdog_aimed_at_another_pid, rejects_zero_and_malformed_timeouts,
}

-- A reading less than ten seconds after the first.
abbrev IsPrompt : Instant → Instant → Type 0
IsPrompt t u = (t ≤ u) × (u < t + from_secs 10)

module _ (t u v w x : Instant) (pu : IsPrompt t u) (pv : IsPrompt t v) (pw : IsPrompt t w)
    (px : IsPrompt t x) where
  idle_tests_pass :
      (idle_loop_with_fresh_tick_is_alive t u v ≡ true)
      × (idle_loop_with_stale_tick_is_wedged t u v ≡ true)
      × (idle_loop_without_accept_timeout_is_trusted t u v ≡ true)
      × (finished_call_returns_to_idle_liveness t u v w x ≡ true)
  unfolding idle_loop_with_fresh_tick_is_alive idle_loop_with_stale_tick_is_wedged
      idle_loop_without_accept_timeout_is_trusted finished_call_returns_to_idle_liveness watched
      tick call_started call_finished is_alive Activity.new Liveness.new
  idle_tests_pass = (ground arith, ground arith, ground arith, ground arith)

  bounded_tests_pass :
      (long_running_bounded_call_within_ceiling_is_busy_not_wedged t u v ≡ true)
      × (bounded_call_overstaying_the_ceiling_is_wedged t u v ≡ true)
      × (progress_does_not_extend_a_bounded_call t u v w ≡ true)
  unfolding long_running_bounded_call_within_ceiling_is_busy_not_wedged
      bounded_call_overstaying_the_ceiling_is_wedged progress_does_not_extend_a_bounded_call watched
      call_started progressed is_alive Activity.new Liveness.new
  bounded_tests_pass = (ground arith, ground arith, ground arith)

  stream_tests_pass :
      (an_open_stream_is_not_a_wedge t u v ≡ true)
      × (a_stream_that_stops_progressing_is_wedged_once_a_ceiling_is_set t u v w ≡ true)
      × (stamping_progress_keeps_a_watched_stream_alive t u v w ≡ true)
  unfolding an_open_stream_is_not_a_wedge
      a_stream_that_stops_progressing_is_wedged_once_a_ceiling_is_set
      stamping_progress_keeps_a_watched_stream_alive watched call_started progressed is_alive
      Activity.new Liveness.new
  stream_tests_pass = (ground arith, ground arith, ground arith)

interval_tests_pass :
    All
      (λ passed. passed ≡ true)
      (no_watchdog_env_means_no_heartbeat ∷ heartbeat_is_half_the_configured_timeout
        ∷ honors_watchdog_pid_when_it_matches ∷ ignores_watchdog_aimed_at_another_pid
        ∷ rejects_zero_and_malformed_timeouts ∷ [])
unfolding no_watchdog_env_means_no_heartbeat heartbeat_is_half_the_configured_timeout
    honors_watchdog_pid_when_it_matches ignores_watchdog_aimed_at_another_pid
    rejects_zero_and_malformed_timeouts heartbeat_from parse_uint
interval_tests_pass = (refl, (refl, (refl, (refl, (refl, tt)))))
