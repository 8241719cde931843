-- ===== src/Watchdog/Activity/Time.antt =====
-- The verdict as time passes, and after a panic.
use uds_policy.Common.{◌≤◌, ◌≡◌, true, false, List, [], ◌∷◌, arith}
use uds_policy.System.{Instant}
use uds_policy.Watchdog.Liveness.{Liveness}
use uds_policy.Watchdog.Activity.{
  ServeActivity, tick, call_started, progressed, call_finished, is_alive,
}
use uds_policy.Watchdog.Activity.History.{Stamp, turned, progress, finished, started}

-- A loop that counts as alive at some moment counted as alive at every earlier one since its last
-- stamp: once wedged, it stays wedged until it stamps again.
pub is_alive_earlier :
    (a : ServeActivity) (l : Liveness) (now then_at : Instant)
    → then_at ≤ now
    → is_alive a now l ≡ true
    → is_alive a then_at l ≡ true
unfolding is_alive
is_alive_earlier a l now then_at le h = ground arith

-- What the loop does to a record that another thread may have poisoned.
abbrev pub apply : Stamp → ServeActivity → ServeActivity
apply (turned t) = tick t
apply (progress t) = progressed t
apply (finished t) = call_finished t
apply (started k t) = call_started k t

abbrev pub apply_all : List Stamp → ServeActivity → ServeActivity
apply_all [] a = a
apply_all (s ∷ h) a = apply_all h (apply s a)

poisoned-apply : (s : Stamp) (a : ServeActivity) → a.poisoned ≡ true → (apply s a).poisoned ≡ true
unfolding tick progressed call_finished call_started
poisoned-apply (turned t) a e = ground arith
poisoned-apply _ a e = ground arith

dead_of_poisoned :
    (a : ServeActivity) (now : Instant) (l : Liveness)
    → a.poisoned ≡ true
    → is_alive a now l ≡ false
unfolding is_alive
dead_of_poisoned a now l e = ground arith

-- After a panic inside a critical section the loop never counts as alive again, whatever it stamps
-- and whatever the ceilings are.
pub poisoned_never_alive :
    (h : List Stamp) (a : ServeActivity) (now : Instant) (l : Liveness)
    → a.poisoned ≡ true
    → is_alive (apply_all h a) now l ≡ false
poisoned_never_alive [] a now l e = dead_of_poisoned a now l e
poisoned_never_alive (s ∷ h) a now l e =
    poisoned_never_alive h (apply s a) now l (poisoned-apply s a e)
