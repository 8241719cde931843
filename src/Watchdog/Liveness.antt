-- ===== src/Watchdog/Liveness.antt =====
-- `InFlight` and `Liveness` of src/watchdog.rs.
use uds_policy.Common.{Option, none, some}
use uds_policy.System.{Duration, from_secs}

pub data InFlight : Type 0 where
  bounded streaming : InFlight

pub record Liveness : Type 0 where
  pub idle_tick_ceiling : Option Duration
  pub longest_bounded_call : Duration
  pub longest_silent_stream : Option Duration

unfoldable pub new : Liveness
new = record {
  idle_tick_ceiling = none;
  longest_bounded_call = from_secs 600;
  longest_silent_stream = none;
}

abbrev default : Liveness
default = new

unfoldable pub with_idle_tick_ceiling : Duration → Liveness → Liveness
with_idle_tick_ceiling ceiling l = record l { idle_tick_ceiling = some ceiling }

unfoldable pub with_longest_bounded_call : Duration → Liveness → Liveness
with_longest_bounded_call ceiling l = record l { longest_bounded_call = ceiling }

unfoldable pub with_silent_stream_ceiling : Duration → Liveness → Liveness
with_silent_stream_ceiling ceiling l = record l { longest_silent_stream = some ceiling }
