-- ===== src/Watchdog/Heartbeat/Pets.antt =====
-- What the heartbeat thread sends, over any number of rounds.
use uds_policy.Common.{
  ℕ, zero, suc, ◌≡◌, refl, Bool, true, false, some, is_ok, List, [], ◌∷◌, ◌++◌, Text, codes, ◌==◌,
  if◌then◌else◌, arith,
}
use uds_policy.System.{
  Instant, Handler, run, run-bind, Event, env_var, unbound_datagram, abstract_address,
}
use uds_policy.Watchdog.Liveness.{Liveness}
use uds_policy.Watchdog.Activity.{ServeActivity, is_alive}
use uds_policy.Watchdog.Heartbeat.{heartbeat, beat}
use uds_policy.Watchdog.Notify.{pet, notify, notified, notify_to}
use uds_policy.Watchdog.Notify.Sent.{sent, Datagram, to_name, to_file}

-- The rounds in which the record counted as alive.
abbrev pub alive_rounds : Liveness → List (ServeActivity × Instant) → ℕ
alive_rounds l [] = 0
alive_rounds l ((a, now) ∷ rounds) =
    if is_alive a now l then suc (alive_rounds l rounds) else alive_rounds l rounds

pub sent-append : (t u : List Event) → sent (t ++ u) ≡ sent t ++ sent u
sent-append [] u = refl
sent-append (e ∷ t) u = ground (arith, sent-append t u)

-- What systemd takes for a sign of life, at the address that starts with `c` and goes on with `path`:
-- one datagram, to a name in the abstract namespace behind an `@`, to a file otherwise.
abbrev pub sign : ℕ → Text → Datagram
sign c path =
    if c == b'@' then to_name path (codes "WATCHDOG=1") else to_file (c ∷ path) (codes "WATCHDOG=1")

abbrev pub signs : ℕ → Datagram → List Datagram
signs zero d = []
signs (suc n) d = d ∷ signs n d

-- A host on which systemd is to be notified: `$NOTIFY_SOCKET` is set to this address whenever it is
-- looked up, a datagram socket can be had, and a name behind an `@` makes an address. Whether a
-- datagram that is sent arrives is left open.
pub record Notifiable {S : Type 0} (h : Handler S) (c : ℕ) (path : Text) : Type 0 where
  pub variable_set : (s : S) → (h (env_var (codes "NOTIFY_SOCKET")) s).0 ≡ some (c ∷ path)
  pub socket_made : (s : S) → is_ok (h unbound_datagram s).0 ≡ true
  pub address_made : (s : S) → is_ok (h (abstract_address path) s).0 ≡ true

module _ {S : Type 0} (h : Handler S) (c : ℕ) (path : Text) (host : Notifiable h c path) where
  notify_to-sign :
      (s : S) → sent (run h (notify_to (c ∷ path) (codes "WATCHDOG=1")) s).trace ≡ sign c path ∷ []
  unfolding notify_to
  notify_to-sign s = ground (arith, host.socket_made s, host.address_made (h unbound_datagram s).1)

  pub beat_lem :
      (b : Bool) (s : S) → sent (run h (beat b) s).trace ≡ (if b then sign c path ∷ [] else [])
  unfolding beat pet notify notified
  beat_lem false s = refl
  beat_lem true s = rw (host.variable_set s) (notify_to-sign _)

  -- Over any rounds the heartbeat sends systemd one sign of life for each round in which the loop
  -- counted as alive, and nothing else.
  pub heartbeat_pets :
      (l : Liveness) (rounds : List (ServeActivity × Instant)) (s : S)
      → sent (run h (heartbeat l rounds) s).trace ≡ signs (alive_rounds l rounds) (sign c path)
  unfolding heartbeat
  heartbeat_pets l [] s = refl
  heartbeat_pets l ((a, now) ∷ rounds) s =
      let b = is_alive a now l in
      let o = run h (beat b) s in
      rw (run-bind h (beat b) (λ _. heartbeat l rounds) s) (
        rw (sent-append o.trace _)
          (rw (beat_lem b s, heartbeat_pets l rounds o.state) (counted b (alive_rounds l rounds))))
    where
      counted :
          (b : Bool) (n : ℕ)
          → (if b then sign c path ∷ [] else []) ++ signs n (sign c path)
            ≡ signs (if b then suc n else n) (sign c path)
      counted true n = refl
      counted false n = refl
