-- ===== src/Watchdog/Timeline.antt =====
-- The accept loop and the heartbeat thread of src/watchdog.rs on one activity record: any interleaving
-- of the loop's stamps with the heartbeat's looks at the record.
pub mod Prompt
use uds_policy.Common.{
  ℕ, suc, ◌+◌, ◌-◌, ◌≡◌, refl, ap, Text, ◌∙◌, Bool, true, Option, none, some, List, [], ◌∷◌, All,
  leb, if◌then◌else◌, arith,
}
use uds_policy.System.{Duration, Instant, Handler, run}
use uds_policy.Watchdog.Liveness.{InFlight, bounded, streaming, Liveness}
use uds_policy.Watchdog.Activity.{ServeActivity}
use uds_policy.Watchdog.Activity.History.{
  Stamp, turned, progress, finished, started, recorded, running, last_sign, last_turn,
  within_ceiling, verdict, is_alive-verdict,
}
use uds_policy.Watchdog.Activity.Time.{apply}
use uds_policy.Watchdog.Heartbeat.{heartbeat}
use uds_policy.Watchdog.Heartbeat.Pets.{alive_rounds, Notifiable, sign, signs, heartbeat_pets}
use uds_policy.Watchdog.Notify.Sent.{sent}

-- A critical section of the loop, or one of the heartbeat with the clock that it read before.
pub data Section : Type 0 where
  stamp : Stamp → Section
  look : Instant → Section

-- What the heartbeat finds at each look, oldest first.
unfoldable pub rounds : ServeActivity → List Section → List (ServeActivity × Instant)
rounds a [] = []
rounds a (stamp s ∷ f) = rounds (apply s a) f
rounds a (look now ∷ f) = (a, now) ∷ rounds a f

-- The last moment at which a loop with this history counts as alive, if there is one.
abbrev pub expiry : Instant → Option Duration → Option Instant
expiry since none = none
expiry since (some ceiling) = some (since + ceiling)

abbrev pub deadline : Instant → Liveness → List Stamp → Option (InFlight × Instant) → Option Instant
deadline t₀ l h none = expiry (last_turn t₀ h) l.idle_tick_ceiling
deadline t₀ l h (some (bounded, t)) = some (t + l.longest_bounded_call)
deadline t₀ l h (some (streaming, t)) = expiry (last_sign t₀ h) l.longest_silent_stream

abbrev pub in_time : Instant → Option Instant → Bool
in_time now none = true
in_time now (some last) = leb now last

-- How many of the looks come before the deadline that the stamps so far have set.
abbrev pub looks_in_time : Instant → Liveness → List Stamp → List Section → ℕ
looks_in_time t₀ l h [] = 0
looks_in_time t₀ l h (stamp s ∷ f) = looks_in_time t₀ l (s ∷ h) f
looks_in_time t₀ l h (look now ∷ f) =
    if in_time now (deadline t₀ l h (running h))
    then suc (looks_in_time t₀ l h f)
    else looks_in_time t₀ l h f

within-in_time :
    (now since : Instant) (ceiling : Option Duration)
    → within_ceiling (now - since) ceiling ≡ in_time now (expiry since ceiling)
within-in_time now since none = refl
within-in_time now since (some c) = ground arith

verdict-in_time :
    (t₀ : Instant) (l : Liveness) (now : Instant) (h : List Stamp) (c : Option (InFlight × Instant))
    → verdict t₀ l now h c ≡ in_time now (deadline t₀ l h c)
verdict-in_time t₀ l now h none = within-in_time now (last_turn t₀ h) l.idle_tick_ceiling
verdict-in_time t₀ l now h (some (bounded, t)) = ground arith
verdict-in_time t₀ l now h (some (streaming, t)) =
    within-in_time now (last_sign t₀ h) l.longest_silent_stream

apply-recorded :
    (t₀ : Instant) (s : Stamp) (h : List Stamp) → apply s (recorded t₀ h) ≡ recorded t₀ (s ∷ h)
unfolding recorded
apply-recorded t₀ (turned t) h = refl
apply-recorded t₀ (progress t) h = refl
apply-recorded t₀ (finished t) h = refl
apply-recorded t₀ (started k t) h = refl

alive_rounds-looks :
    (t₀ : Instant) (l : Liveness) (h : List Stamp) (f : List Section)
    → alive_rounds l (rounds (recorded t₀ h) f) ≡ looks_in_time t₀ l h f
unfolding rounds
alive_rounds-looks t₀ l h [] = refl
alive_rounds-looks t₀ l h (stamp s ∷ f) =
    rw (apply-recorded t₀ s h) (alive_rounds-looks t₀ l (s ∷ h) f)
alive_rounds-looks t₀ l h (look now ∷ f) =
    rw (is_alive-verdict t₀ l now h ∙ verdict-in_time t₀ l now h (running h))
      (rw (alive_rounds-looks t₀ l h f) refl)

-- On a host on which systemd is to be notified, and however the heartbeat's looks fall between the
-- stamps of the loop: it sends systemd exactly one sign of life for each look that comes no later than
-- the deadline that the stamps before it have set, and nothing else. That deadline is the idle ceiling
-- after the loop's last turn, the longest bounded call after the start of a bounded one, the longest
-- silence after a stream's last sign of progress.
pub heartbeat_interleaved :
    {S : Type 0} (g : Handler S) (c : ℕ) (path : Text) (host : Notifiable g c path) (t₀ : Instant)
    (l : Liveness) (f : List Section) (s : S)
    → sent (run g (heartbeat l (rounds (recorded t₀ []) f)) s).trace
      ≡ signs (looks_in_time t₀ l [] f) (sign c path)
heartbeat_interleaved g c path host t₀ l f s =
    heartbeat_pets g c path host l (rounds (recorded t₀ []) f) s
    ∙ ap (λ n. signs n (sign c path)) (alive_rounds-looks t₀ l [] f)
