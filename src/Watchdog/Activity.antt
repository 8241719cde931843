-- ===== src/Watchdog/Activity.antt =====
-- `ServeActivity` of src/watchdog.rs. Each operation is given the reading of the clock that it takes
-- inside its critical section.
pub mod History
pub mod Time
use uds_policy.Common.{ℕ, ◌-◌, Bool, true, false, Option, none, some, leb, if◌then◌else◌}
use uds_policy.System.{Duration, Instant}
use uds_policy.Watchdog.Liveness.{InFlight, bounded, streaming, Liveness}

pub record InFlightState : Type 0 where
  pub kind : InFlight
  pub started_at : Instant
  pub last_progress : Instant

pub record ActivityState : Type 0 where
  pub last_tick : Instant
  pub in_flight : Option InFlightState

-- `Mutex<ActivityState>`; it is poisoned once a thread panicked while it held the lock.
pub record ServeActivity : Type 0 where
  pub state : ActivityState
  pub poisoned : Bool

-- `ServeActivity::new`
unfoldable pub new : Instant → ServeActivity
new now = record { state = record { last_tick = now; in_flight = none }; poisoned = false }

-- `if let Ok(mut state) = self.state.lock()`
with_lock : (ActivityState → ActivityState) → ServeActivity → ServeActivity
with_lock f a = if a.poisoned then a else record a { state = f a.state }

unfoldable pub tick : Instant → ServeActivity → ServeActivity
unfolding with_lock
tick now = with_lock (λ s. record s { last_tick = now })

unfoldable pub call_started : InFlight → Instant → ServeActivity → ServeActivity
unfolding with_lock
call_started kind now = with_lock (λ s. record s {
  in_flight = some (record { kind = kind; started_at = now; last_progress = now });
})

stamped : Instant → Option InFlightState → Option InFlightState
stamped now none = none
stamped now (some call) = some (record call { last_progress = now })

unfoldable pub progressed : Instant → ServeActivity → ServeActivity
unfolding with_lock stamped
progressed now = with_lock (λ s. record s { in_flight = stamped now s.in_flight })

unfoldable pub call_finished : Instant → ServeActivity → ServeActivity
unfolding with_lock
call_finished now = with_lock (λ s. record { last_tick = now; in_flight = none })

-- `ceiling.is_none_or(|ceiling| age <= ceiling)`
within : Duration → Option Duration → Bool
within age none = true
within age (some ceiling) = leb age ceiling

-- the arms of the `match` on `in_flight.kind`; `saturating_duration_since` is 0 for a later instant
judged : Instant → Liveness → InFlightState → InFlight → Bool
unfolding within
judged now l call bounded = leb (now - call.started_at) l.longest_bounded_call
judged now l call streaming = within (now - call.last_progress) l.longest_silent_stream

-- `let Some(ref in_flight) = state.in_flight else { … }`
judged_call : Instant → Liveness → ActivityState → Option InFlightState → Bool
unfolding judged within
judged_call now l s none = within (now - s.last_tick) l.idle_tick_ceiling
judged_call now l s (some call) = judged now l call call.kind

unfoldable pub is_alive : ServeActivity → Instant → Liveness → Bool
unfolding judged_call
is_alive a now l = if a.poisoned then false else judged_call now l a.state a.state.in_flight
