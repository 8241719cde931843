-- ===== src/Gatekeeper/Serve/Loop.antt =====
-- The accept loop of `serve` in examples/gatekeeper.rs: what every turn leaves, and how it ends.
use uds_policy.Common.{
  ℕ, zero, suc, ◌≤◌, ◌+◌, ◌≡◌, refl, sym, subst, inl, inr, Bool, true, false, Option, none, some,
  Result, ok, err, is_ok, List, Text, u64_max, if◌then◌else◌, arith, Bool-cases,
}
use uds_policy.System.{Byte, Fd, IoError, Handler, run, run-bind, Outcome, now}
use uds_policy.Caller.{Caller}
use uds_policy.Authorization.{Authorizer}
use uds_policy.Socket.Config.{Socket}
use uds_policy.Socket.Accept.{accept}
use uds_policy.Watchdog.Liveness.{InFlight}
use uds_policy.Watchdog.Activity.{ServeActivity, tick, call_started, call_finished}
use uds_policy.Gatekeeper.{answer}
use uds_policy.Gatekeeper.Serve.{Turned, handled, one_more, turn, turns, goes_on, noted, is_idle}

-- Between turns nobody holds the record broken, and no call is in flight.
abbrev pub IsResting : ServeActivity → Type 0
IsResting a = (a.poisoned ≡ false) × (a.state.in_flight ≡ none)

finished-IsResting :
    (t u : ℕ) (k : InFlight) (a : ServeActivity)
    → a.poisoned ≡ false
    → IsResting (call_finished t (call_started k u a))
unfolding call_finished call_started
finished-IsResting t u k a e = ground arith

tick-IsResting : (t : ℕ) (a : ServeActivity) → IsResting a → IsResting (tick t a)
unfolding tick
tick-IsResting t a e = ground arith

abbrev pub WithinLimit : Option ℕ → ℕ → Type 0
WithinLimit none served = Unit
WithinLimit (some max) served = served ≤ max

pub one_more-WithinLimit :
    (limit : Option ℕ) (served : ℕ) (b : Bool)
    → goes_on limit served ≡ true
    → WithinLimit limit (if b then one_more served else served)
unfolding goes_on one_more
one_more-WithinLimit none served b g = tt
one_more-WithinLimit (some max) served b g = ground arith

pub one_more-on :
    (max served : ℕ)
    → goes_on (some max) served ≡ true
    → max ≤ u64_max
    → (one_more served ≡ served + 1) × (served + 1 ≤ max)
unfolding goes_on one_more
one_more-on max served on fits = (ground arith, ground arith)

pub over_lem : (max served : ℕ) → goes_on (some max) served ≡ false → max ≤ served
unfolding goes_on
over_lem max served over = ground arith

module _ (lossy : List Byte → Text) (authorizer : Authorizer) {S : Type 0} (h : Handler S)
    (socket : Socket) where
  pub handled_lem :
      (l : Turned) (r : Result (Fd × Caller) IoError) (s : S)
      → IsResting l.activity
      → let m = (run h (handled lossy authorizer l r) s).result in
        IsResting m.activity × (m.served ≡ (if is_ok r then one_more l.served else l.served))
  unfolding handled call_started call_finished
  handled_lem l (ok (stream, caller)) s rests =
      subst
        (λ (o : Outcome Turned S).
          IsResting o.result.activity × (o.result.served ≡ one_more l.served))
        (sym (run-bind h (answer lossy stream caller authorizer) _ (h now s).1))
        (finished-IsResting _ _ _ _ rests.0, refl)
  handled_lem l (err error) s rests =
      rw (run-bind h (noted error (is_idle error.kind))) (rests, refl)

  turn_lem :
      (l : Turned) (s : S)
      → IsResting l.activity
      → let m = (run h (turn lossy authorizer socket l) s).result in
        IsResting m.activity
        × (m.served
            ≡ (if is_ok (run h (accept socket) s).result then one_more l.served else l.served))
  unfolding turn
  turn_lem l s rests =
      let o = run h (accept socket) s in
      let (resting, counted) = handled_lem l o.result o.state rests in
      rw (run-bind h (accept socket)) (
        rw (run-bind h (handled lossy authorizer l o.result)) (tick-IsResting _ _ resting, counted))

  -- Any number of turns, whatever is accepted and whatever the work answers, leave the record
  -- unpoisoned and with no call in flight if they find it so, and never serve beyond the limit.
  pub turns_rest :
      (n : ℕ) (limit : Option ℕ) (l : Turned) (s : S)
      → IsResting l.activity
      → WithinLimit limit l.served
      → let m = (run h (turns lossy authorizer n socket limit l) s).result in
        IsResting m.activity × WithinLimit limit m.served
  unfolding turns
  turns_rest zero limit l s r w = (r, w)
  turns_rest (suc n) limit l s r w = elim (Bool-cases (goes_on limit l.served)) [
    | inl on ↦ rw on (
        let (resting, counted) = turn_lem l s r in
        let o = run h (turn lossy authorizer socket l) s in
        rw (run-bind h (turn lossy authorizer socket l)) (
          turns_rest n limit o.result o.state resting
            (rw counted (one_more-WithinLimit limit l.served _ on))))
    | inr over ↦ rw over (r, w)
  ]

  -- If every accept yields a connection, the loop ends, and with exactly the limit served, once it
  -- is given as many turns as calls are left to serve.
  pub turns_complete :
      (n max : ℕ) (l : Turned) (s : S)
      → ((t : S) → is_ok (run h (accept socket) t).result ≡ true)
      → IsResting l.activity
      → l.served ≤ max
      → max ≤ l.served + n
      → max ≤ u64_max
      → (run h (turns lossy authorizer n socket (some max) l) s).result.served ≡ max
  unfolding turns
  turns_complete zero max l s yields r le enough fits = omega arith
  turns_complete (suc n) max l s yields r le enough fits =
      elim (Bool-cases (goes_on (some max) l.served)) [
        | inl on ↦ rw on (
            let (resting, counted) = turn_lem l s r in
            let o = run h (turn lossy authorizer socket l) s in
            let (more, below) = one_more-on max l.served on fits in
            let next : o.result.served ≡ l.served + 1 = rw (counted, yields s) more in
            rw (run-bind h (turn lossy authorizer socket l)) (
              turns_complete n max o.result o.state yields resting (rw next below) (omega arith)
                fits))
        | inr over ↦ rw over (let past = over_lem max l.served over in omega arith)
      ]
