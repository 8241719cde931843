-- ===== src/Watchdog/Heartbeat/Thread.antt =====
-- The thread of `spawn_heartbeat` in src/watchdog.rs, with its sleeps and its readings of the clock.
use uds_policy.Common.{Bool, List, [], ◌∷◌, ◌++◌, if◌then◌else◌}
use uds_policy.System.{
  Duration, Instant, Command, Answer, Event, Io, ret, ask, ◌>>=◌, ◌>>◌, sleep, now,
  send_to_abstract, send_to_path,
}
use uds_policy.Watchdog.Liveness.{Liveness}
use uds_policy.Watchdog.Activity.{ServeActivity, is_alive}
use uds_policy.Watchdog.Notify.Sent.{Datagram, to_name, to_file}
use uds_policy.Watchdog.Heartbeat.{beat}

-- The `loop`, for as many rounds as there are records: each is what the shared one holds when its lock
-- is taken.
pub beats : Duration → Liveness → List ServeActivity → Io (Unit {0})
unfolding beat
beats interval liveness [] = ret tt
beats interval liveness (activity ∷ later) = do
  ask (sleep interval)
  at ← ask now
  beat (is_alive activity at liveness)
  beats interval liveness later

-- What the thread does: it sleeps, reads the clock and sends datagrams.
pub data Act : Type 0 where
  slept : Duration → Act
  woke : Instant → Act
  sends : Datagram → Act

abbrev pub act : (c : Command) → Answer c → List Act
act (sleep d) r = slept d ∷ []
act now r = woke r ∷ []
act (send_to_abstract s a m) r = sends (to_name a m) ∷ []
act (send_to_path s p m) r = sends (to_file p m) ∷ []
act _ r = []

abbrev pub acts : List Event → List Act
acts [] = []
acts (e ∷ t) = act e.command e.answer ++ acts t

abbrev pub readings : List Act → List Instant
readings [] = []
readings (woke t ∷ more) = t ∷ readings more
readings (slept d ∷ more) = readings more
readings (sends d ∷ more) = readings more

-- The sign of life of a round.
abbrev pub told : Datagram → Bool → List Act
told d b = if b then sends d ∷ [] else []

-- One round for each record, at these readings of the clock.
abbrev pub timetable : Datagram → Duration → Liveness → List ServeActivity → List Instant → List Act
timetable d interval l (a ∷ later) (t ∷ ts) =
    slept interval ∷ woke t ∷ (told d (is_alive a t l) ++ timetable d interval l later ts)
timetable d interval l _ _ = []
