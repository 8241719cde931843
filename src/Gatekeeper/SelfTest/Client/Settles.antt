-- ===== src/Gatekeeper/SelfTest/Client/Settles.antt =====
-- How long the client of `self_test` waits for the socket.
use uds_policy.Common.{
  ℕ, zero, suc, ◌+◌, ◌*◌, ◌≤◌, ◌<◌, ◌≡◌, refl, ◌⊎◌, inl, inr, true, false, Bool-cases, ltb→lt,
  subst, Option, some, Result, ok, err, Text, codes, ltb, arith,
}
use uds_policy.System.{
  FilePath, Duration, Instant, IoError, ret, ◌>>=◌, Handler, Outcome, run, run-bind, now, exists,
  sleep, from_secs, from_millis,
}
use uds_policy.Gatekeeper.SelfTest.Client.{
  never_bound, other, overslept, looked, waited, requested, resumed, client,
}

module _ {S : Type 0} (h : Handler S) where
  -- A clock that is read, that does not go back, and on which a sleep lasts as long as it was asked
  -- to, or longer.
  pub record Clock : Type 0 where
    pub time : S → Instant
    pub clock_read : (s : S) → (h now s).0 ≡ time s
    pub now_after : (s : S) → time s ≤ time (h now s).1
    pub exists_after : (path : FilePath) (s : S) → time s ≤ time (h (exists path) s).1
    pub slept : (d : Duration) (s : S) → time s + d ≤ time (h (sleep d) s).1

  module _ (clock : Clock) (path : FilePath) (deadline : Instant) where
    open clock use {time, clock_read, now_after, exists_after, slept}

    -- What ended the wait: the path was seen, or the deadline had passed.
    abbrev Waited : Outcome (Option (Result (Unit {0}) IoError)) S → Type 0
    Waited o =
        ((o.result ≡ some (ok tt))
          × (t : S) × ((h (exists path) t).0 ≡ true)
          × (o.state ≡ (h (exists path) t).1))
        ⊎ ((o.result ≡ some never_bound) × (deadline < time o.state))

    -- The states behind the look of a round, the reading of its clock and its sleep.
    abbrev looked_at : S → S
    looked_at s = (h (exists path) s).1

    abbrev read_at : S → S
    read_at s = (h now (looked_at s)).1

    abbrev slept_at : S → S
    slept_at s = (h (sleep (from_millis 20)) (read_at s)).1

    round_seen :
        (n : ℕ) (s : S)
        → (h (exists path) s).0 ≡ true
        → Waited (run h (waited (suc n) path deadline) s)
    unfolding waited looked
    round_seen n s there = rw (run, there) (inl (refl, s, there, refl))

    round_late :
        (n : ℕ) (s : S)
        → (h (exists path) s).0 ≡ false
        → ltb deadline (h now (looked_at s)).0 ≡ true
        → Waited (run h (waited (suc n) path deadline) s)
    unfolding waited looked overslept
    round_late n s absent late =
        let past : deadline < time (looked_at s) =
          subst (λ t. deadline < t) (clock_read (looked_at s)) (ltb→lt _ _ late) in
        let after = now_after (looked_at s) in
        rw (run, absent) (rw (run, late) (inr (refl, omega arith)))

    round_slept :
        (n : ℕ) (s : S)
        → (h (exists path) s).0 ≡ false
        → ltb deadline (h now (looked_at s)).0 ≡ false
        → Waited (run h (waited n path deadline) (slept_at s))
        → Waited (run h (waited (suc n) path deadline) s)
    unfolding waited looked overslept
    round_slept n s absent early w = rw (run, absent) (rw (run, early) w)

    round_time : (s : S) → time s + 20_000_000 ≤ time (slept_at s)
    round_time s =
        let a = exists_after path s in
        let b = now_after (looked_at s) in let c = slept (from_millis 20) (read_at s) in omega arith

    -- Short of the deadline it is not yet late.
    early_lem : (s : S) → ltb deadline (h now (looked_at s)).0 ≡ false → time s ≤ deadline
    early_lem s early =
        let t = exists_after path s in
        let e : ltb deadline (time (looked_at s)) ≡ false =
          subst (λ t. ltb deadline t ≡ false) (clock_read (looked_at s)) early in
        ground arith

    -- A round ends the wait, unless it is early: then it sleeps and goes on.
    round_ends :
        (n : ℕ) (s : S)
        → (time s ≤ deadline → Waited (run h (waited n path deadline) (slept_at s)))
        → Waited (run h (waited (suc n) path deadline) s)
    round_ends n s next = elim (Bool-cases (h (exists path) s).0) [
      | inl there ↦ round_seen n s there
      | inr absent ↦ elim (Bool-cases (ltb deadline (h now (looked_at s)).0)) [
        | inl late ↦ round_late n s absent late
        | inr early ↦ round_slept n s absent early (next (early_lem s early))
      ]
    ]

    -- The wait ends within as many rounds as sleeps fit before the deadline, and one.
    waited_ends :
        (n : ℕ) (s : S)
        → deadline < time s + n * 20_000_000
        → Waited (run h (waited (suc n) path deadline) s)
    waited_ends zero s enough = round_ends zero s (λ early. absurd (omega arith))
    waited_ends (suc n) s enough =
        round_ends (suc n) s
          (λ early. let t = round_time s in waited_ends n (slept_at s) (omega arith))

  -- The exchange, from the state in which the path was seen.
  abbrev exchanged : FilePath → S → Outcome (Result Text IoError) S
  exchanged path t = run h (requested path) (h (exists path) t).1

  -- What ends the client: the path was seen, and the exchange follows at once; or the deadline
  -- went by, and it says so.
  abbrev pub Ended : Clock → FilePath → Instant → Outcome (Option (Result Text IoError)) S → Type 0
  Ended clock path deadline o =
      ((t : S) × ((h (exists path) t).0 ≡ true)
        × (o.result ≡ some (exchanged path t).result)
        × (o.state ≡ (exchanged path t).state))
      ⊎ ((o.result ≡ some (err (other (codes "the daemon never bound its socket"))))
          × (deadline < clock.time o.state))

  resumed-Ended :
      (clock : Clock) (path : FilePath) (deadline : Instant)
      (r : Option (Result (Unit {0}) IoError)) (s : S)
      → ((r ≡ some (ok tt))
          × (t : S) × ((h (exists path) t).0 ≡ true)
          × (s ≡ (h (exists path) t).1))
        ⊎ ((r ≡ some never_bound) × (deadline < clock.time s))
      → Ended clock path deadline (run h (resumed path r) s)
  unfolding resumed
  resumed-Ended clock path deadline r s (inl (e, t, there, at)) =
      rw (e, at)
        (rw
          (run-bind h (requested path) (λ (reply : Result Text IoError). ret (some reply))
            (h (exists path) t).1)
          (inl (t, there, refl, refl)))
  resumed-Ended clock path deadline r s (inr (e, late)) = rw e (inr (refl, late))

  rounds-Ended :
      (clock : Clock) (path : FilePath) (deadline : Instant) (n : ℕ) (s : S)
      → deadline < clock.time s + n * 20_000_000
      → Ended clock path deadline (run h (waited (suc n) path deadline >>= resumed path) s)
  rounds-Ended clock path deadline n s enough =
      let o = run h (waited (suc n) path deadline) s in
      rw (run-bind h (waited (suc n) path deadline) (resumed path) s) (
        resumed-Ended clock path deadline o.result o.state
          (waited_ends clock path deadline n s enough))

  -- Given 1002 rounds or more, on a clock that does not go back and on which a sleep lasts as long
  -- as it was asked to, the client's wait ends: it saw the socket's path, and its result is that of
  -- the exchange which follows, or more than 20 seconds went by, and it says so.
  pub client_settles :
      (clock : Clock) (path : FilePath) (n : ℕ) (s : S)
      → 1002 ≤ n
      → Ended clock path (clock.time s + from_secs 20) (run h (client n path) s)
  unfolding client
  client_settles clock path zero s enough = absurd (omega arith)
  client_settles clock path (suc n) s enough =
      let after = clock.now_after s in
      let read = clock.clock_read s in
      subst (λ t. Ended clock path (t + from_secs 20) (run h (client (suc n) path) s)) read
        (rounds-Ended clock path ((h now s).0 + from_secs 20) n (h now s).1 (omega arith))
