-- ===== src/Watchdog/Timeline/Prompt.antt =====
-- Stamps that come before the deadlines of the record, and looks between them.
use uds_policy.Common.{ℕ, suc, ◌≤◌, ◌≡◌, refl, true, Option, none, some, List, [], ◌∷◌, ◌++◌, arith}
use uds_policy.System.{Instant}
use uds_policy.Watchdog.Liveness.{Liveness}
use uds_policy.Watchdog.Activity.{ServeActivity}
use uds_policy.Watchdog.Activity.History.{Stamp, turned, progress, finished, started, running}
use uds_policy.Watchdog.Activity.Time.{apply}
use uds_policy.Watchdog.Timeline.{Section, stamp, look, deadline, in_time, looks_in_time}

abbrev pub time_of : Stamp → Instant
time_of (turned t) = t
time_of (progress t) = t
time_of (finished t) = t
time_of (started k t) = t

abbrev pub stamps : List Section → List Stamp
stamps [] = []
stamps (stamp s ∷ f) = s ∷ stamps f
stamps (look now ∷ f) = stamps f

abbrev pub looks : List Section → ℕ
looks [] = 0
looks (stamp s ∷ f) = looks f
looks (look now ∷ f) = suc (looks f)

-- The next reading of the clock, which is the end if there is no other.
abbrev pub next : List Section → Instant → Instant
next [] end = end
next (stamp s ∷ f) end = time_of s
next (look now ∷ f) end = now

-- No look reads a later clock than what comes after it, up to the end.
abbrev pub IsOrdered : List Section → Instant → Type 0
IsOrdered [] end = Unit
IsOrdered (stamp s ∷ f) end = IsOrdered f end
IsOrdered (look now ∷ f) end = (now ≤ next f end) × IsOrdered f end

-- What the record holds after these stamps, oldest first, and the history that they leave.
abbrev pub applied : ServeActivity → List Stamp → ServeActivity
applied a [] = a
applied a (s ∷ ss) = applied (apply s a) ss

pub applied-append :
    (a : ServeActivity) (xs ys : List Stamp) → applied a (xs ++ ys) ≡ applied (applied a xs) ys
applied-append a [] ys = refl
applied-append a (x ∷ xs) ys = applied-append (apply x a) xs ys

module _ (t₀ : Instant) (l : Liveness) where
  -- Each stamp comes no later than the deadline that those before it set, and so does the end.
  abbrev pub IsPrompt : List Stamp → List Stamp → Instant → Type 0
  IsPrompt h [] end = in_time end (deadline t₀ l h (running h)) ≡ true
  IsPrompt h (s ∷ ss) end =
      (in_time (time_of s) (deadline t₀ l h (running h)) ≡ true) × IsPrompt (s ∷ h) ss end

  earlier-in_time :
      (a b : Instant) (d : Option Instant) → a ≤ b → in_time b d ≡ true → in_time a d ≡ true
  earlier-in_time a b none le e = refl
  earlier-in_time a b (some d) le e = ground arith

  next-in_time :
      (h : List Stamp) (f : List Section) (end : Instant)
      → IsOrdered f end
      → IsPrompt h (stamps f) end
      → in_time (next f end) (deadline t₀ l h (running h)) ≡ true
  next-in_time h [] end o p = p
  next-in_time h (stamp s ∷ f) end o p = p.0
  next-in_time h (look now ∷ f) end o p =
      earlier-in_time now (next f end) _ o.0 (next-in_time h f end o.1 p)

  -- Between prompt stamps every look is in time.
  pub prompt-looks :
      (h : List Stamp) (f : List Section) (end : Instant)
      → IsOrdered f end
      → IsPrompt h (stamps f) end
      → looks_in_time t₀ l h f ≡ looks f
  prompt-looks h [] end o p = refl
  prompt-looks h (stamp s ∷ f) end o p = prompt-looks (s ∷ h) f end o p.1
  prompt-looks h (look now ∷ f) end o p =
      rw (next-in_time h (look now ∷ f) end o p, prompt-looks h f end o.1 p) refl
