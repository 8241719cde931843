-- ===== src/Watchdog/Heartbeat.antt =====
-- `heartbeat_from`, `heartbeat_interval` and the loop of `spawn_heartbeat` in src/watchdog.rs.
pub mod Interval
pub mod Pets
pub mod Thread
use uds_policy.Common.{
  ℕ, ◌/◌, Bool, true, false, Option, none, some, List, [], ◌∷◌, Text, codes, parse_uint, u32_max,
  u64_max, ltb, ◌==◌, if◌then◌else◌,
}
use uds_policy.System.{
  Duration, Instant, from_micros, Io, ret, ask, ◌>>=◌, ◌>>◌, env_var, process_id,
}
use uds_policy.Watchdog.Liveness.{Liveness}
use uds_policy.Watchdog.Notify.{pet}
use uds_policy.Watchdog.Activity.{ServeActivity, is_alive}

-- `pid.parse::<u32>().ok() != Some(current_pid)`, and absent the watchdog is for this process
is_mine : Option ℕ → ℕ → Bool
is_mine none current_pid = false
is_mine (some pid) current_pid = pid == current_pid

for_me : Option Text → ℕ → Bool
unfolding is_mine
for_me none current_pid = true
for_me (some pid) current_pid = is_mine (parse_uint u32_max pid) current_pid

half_of : Option ℕ → Option Duration
half_of none = none
half_of (some usec) = if ltb 0 usec then some (from_micros (usec / 2)) else none

timeout_of : Option Text → Option Duration
unfolding half_of
timeout_of none = none
timeout_of (some usec) = half_of (parse_uint u64_max usec)

unfoldable pub heartbeat_from : Option Text → Option Text → ℕ → Option Duration
unfolding for_me timeout_of
heartbeat_from watchdog_usec watchdog_pid current_pid =
    if for_me watchdog_pid current_pid then timeout_of watchdog_usec else none

unfoldable pub heartbeat_interval : Io (Option Duration)
heartbeat_interval = do
  usec ← ask (env_var (codes "WATCHDOG_USEC"))
  pid ← ask (env_var (codes "WATCHDOG_PID"))
  current ← ask process_id
  ret (heartbeat_from usec pid current)

-- `if activity.is_alive(Instant::now(), &liveness)`
pub beat : Bool → Io (Unit {0})
beat true = pet
beat false = ret tt

-- The loop of `spawn_heartbeat`, round by round: what the accept loop had stamped, and the reading of
-- the clock, when each sleep ended.
unfoldable pub heartbeat : Liveness → List (ServeActivity × Instant) → Io (Unit {0})
unfolding beat
heartbeat liveness [] = ret tt
heartbeat liveness ((activity, now) ∷ rounds) = do
  beat (is_alive activity now liveness)
  heartbeat liveness rounds
