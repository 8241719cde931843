-- ===== src/Watchdog/Activity/History.antt =====
-- The record against the history of what the accept loop did, newest first.
use uds_policy.Common.{
  ◌-◌, ◌≡◌, refl, sym, ◌∙◌, Bool, true, false, Option, none, some, List, [], ◌∷◌, leb,
}
use uds_policy.System.{Duration, Instant}
use uds_policy.Watchdog.Liveness.{InFlight, bounded, streaming, Liveness}
use uds_policy.Watchdog.Activity.{
  ServeActivity, new, tick, call_started, progressed, call_finished, is_alive, stamped, within,
  InFlightState,
}

pub data Stamp : Type 0 where
  turned progress finished : Instant → Stamp
  started : InFlight → Instant → Stamp

-- What the record holds after the stamps of a loop that began at `t₀`.
unfoldable pub recorded : Instant → List Stamp → ServeActivity
recorded t₀ [] = new t₀
recorded t₀ (turned t ∷ h) = tick t (recorded t₀ h)
recorded t₀ (started k t ∷ h) = call_started k t (recorded t₀ h)
recorded t₀ (progress t ∷ h) = progressed t (recorded t₀ h)
recorded t₀ (finished t ∷ h) = call_finished t (recorded t₀ h)

-- The call that has not finished, and when it began.
abbrev pub running : List Stamp → Option (InFlight × Instant)
running [] = none
running (started k t ∷ h) = some (k, t)
running (finished t ∷ h) = none
running (_ ∷ h) = running h

-- When the running call last began or made progress, and when the loop last turned or finished a call.
abbrev pub last_sign : Instant → List Stamp → Instant
last_sign t₀ [] = t₀
last_sign t₀ (started k t ∷ h) = t
last_sign t₀ (progress t ∷ h) = t
last_sign t₀ (_ ∷ h) = last_sign t₀ h

abbrev pub last_turn : Instant → List Stamp → Instant
last_turn t₀ [] = t₀
last_turn t₀ (turned t ∷ h) = t
last_turn t₀ (finished t ∷ h) = t
last_turn t₀ (_ ∷ h) = last_turn t₀ h

abbrev pub within_ceiling : Duration → Option Duration → Bool
within_ceiling age none = true
within_ceiling age (some ceiling) = leb age ceiling

-- What the history says of the loop: a bounded call is judged by its whole duration, a stream by
-- the time since its last sign of progress, an idle loop by the time since its last turn.
abbrev pub verdict : Instant → Liveness → Instant → List Stamp → Option (InFlight × Instant) → Bool
verdict t₀ l now h none = within_ceiling (now - last_turn t₀ h) l.idle_tick_ceiling
verdict t₀ l now h (some (bounded, t)) = leb (now - t) l.longest_bounded_call
verdict t₀ l now h (some (streaming, t)) =
    within_ceiling (now - last_sign t₀ h) l.longest_silent_stream

call_of : Instant → Option (InFlight × Instant) → Option InFlightState
call_of sign none = none
call_of sign (some (k, t)) = some (record { kind = k; started_at = t; last_progress = sign })

abbrev of_history : Instant → List Stamp → ServeActivity
of_history t₀ h = record {
  state = record { last_tick = last_turn t₀ h; in_flight = call_of (last_sign t₀ h) (running h) };
  poisoned = false;
}

call_of-stamped :
    (s t : Instant) (c : Option (InFlight × Instant)) → stamped t (call_of s c) ≡ call_of t c
unfolding call_of stamped
call_of-stamped s t none = refl
call_of-stamped s t (some (k, u)) = refl

recorded_lem : (t₀ : Instant) (h : List Stamp) → recorded t₀ h ≡ of_history t₀ h
unfolding recorded new call_of
recorded_lem t₀ [] = refl
recorded_lem t₀ (turned t ∷ h) = rw (recorded_lem t₀ h) (unfold tick in refl)
recorded_lem t₀ (started k t ∷ h) = rw (recorded_lem t₀ h) (unfold call_started in refl)
recorded_lem t₀ (progress t ∷ h) =
    rw (recorded_lem t₀ h)
      (unfold progressed in cc (call_of-stamped (last_sign t₀ h) t (running h)))
recorded_lem t₀ (finished t ∷ h) = rw (recorded_lem t₀ h) (unfold call_finished in refl)

within_lem :
    (age : Duration) (ceiling : Option Duration) → within age ceiling ≡ within_ceiling age ceiling
unfolding within
within_lem age none = refl
within_lem age (some c) = refl

judged_verdict :
    (t₀ : Instant) (l : Liveness) (now : Instant) (h : List Stamp) (c : Option (InFlight × Instant))
    → running h ≡ c
    → is_alive (of_history t₀ h) now l ≡ verdict t₀ l now h c
unfolding is_alive call_of
judged_verdict t₀ l now h none e = rw e (within_lem (now - last_turn t₀ h) l.idle_tick_ceiling)
judged_verdict t₀ l now h (some (bounded, t)) e = rw e refl
judged_verdict t₀ l now h (some (streaming, t)) e =
    rw e (within_lem (now - last_sign t₀ h) l.longest_silent_stream)

-- After any stamps, `is_alive` answers what the history says: a bounded call is alive as long as it
-- has run no longer than its ceiling, a stream as long as its last sign of progress is no older than
-- the ceiling that the daemon set, if it set one, and an idle loop likewise by its last turn.
pub is_alive-verdict :
    (t₀ : Instant) (l : Liveness) (now : Instant) (h : List Stamp)
    → is_alive (recorded t₀ h) now l ≡ verdict t₀ l now h (running h)
is_alive-verdict t₀ l now h = rw (recorded_lem t₀ h) (judged_verdict t₀ l now h (running h) refl)

-- The history without its stamps of progress.
abbrev pub without_progress : List Stamp → List Stamp
without_progress [] = []
without_progress (progress t ∷ h) = without_progress h
without_progress (s ∷ h) = s ∷ without_progress h

running-without_progress : (h : List Stamp) → running (without_progress h) ≡ running h
running-without_progress [] = refl
running-without_progress (progress t ∷ h) = running-without_progress h
running-without_progress (turned t ∷ h) = running-without_progress h
running-without_progress (started k t ∷ h) = refl
running-without_progress (finished t ∷ h) = refl

-- Progress does not extend a bounded call: while one runs, the answer is that of the same history
-- without any progress.
pub progress_extends_no_bounded_call :
    (t₀ : Instant) (l : Liveness) (now : Instant) (h : List Stamp) (t : Instant)
    → running h ≡ some (bounded, t)
    → is_alive (recorded t₀ h) now l ≡ is_alive (recorded t₀ (without_progress h)) now l
progress_extends_no_bounded_call t₀ l now h t e =
    rw (recorded_lem t₀ h, recorded_lem t₀ (without_progress h))
      (judged_verdict t₀ l now h (some (bounded, t)) e
        ∙ sym (
            judged_verdict t₀ l now (without_progress h) (some (bounded, t))
              (running-without_progress h ∙ e)))
