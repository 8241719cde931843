-- ===== src/Gatekeeper/SelfTest/Whole/Sound.antt =====
-- What it takes for `main` of examples/gatekeeper.rs to return without an error.
use uds_policy.Common.{
  ℕ, zero, suc, ◌≡◌, true, false, Option, none, some, Result, ok, err, List, Text, arith,
}
use uds_policy.System.{FilePath, Byte, IoError, ret}
use uds_policy.System.Threads.{Answers, Pool, Good, Reach, Reach-IsGood}
use uds_policy.System.Always.{
  Always, Always->>=, Always->>, Always-Yields, Always-Good, AnyCommand, AnyAnswer, Yields,
}
use uds_policy.Gatekeeper.Serve.{Turned, goes_on, serve}
use uds_policy.Gatekeeper.Serve.Loop.{over_lem}
use uds_policy.Gatekeeper.Serve.Counted.{HasCounted, serve-HasCounted}
use uds_policy.Gatekeeper.SelfTest.{mode, self_testing}
use uds_policy.Gatekeeper.SelfTest.Client.{client}
use uds_policy.Gatekeeper.SelfTest.Halves.{
  Failed, Place, Half, served, read, idle, halves, prepared,
}
use uds_policy.Gatekeeper.SelfTest.Whole.{
  spawned, SelfTested, unplaced, unserved, joined, Returns, self_tested, not_bound, stopped,
}
use uds_policy.Gatekeeper.SelfTest.Whole.Verdict.{says_hello, passing, IsHeard, ended-IsHeard}

-- Without a limit the loop does not end by itself.
unending : (n : ℕ) → goes_on none n ≡ false → ⊥
unfolding goes_on
unending n e = cc

module _ (lossy : List Byte → Text) (debug trim : Text → Text) (to_str : FilePath → Option Text)
    (turns rounds : ℕ) {S : Type 0} (may : Answers S) where
  -- How one of the threads of the self-test may end.
  abbrev pub EndsWell : Half → Type 0
  EndsWell (served r) = HasCounted (some 1) r
  EndsWell (read r) = Unit
  EndsWell idle = Unit

  halves-EndsWell : (place : Place) (i : ℕ) → Always EndsWell (halves lossy turns rounds place i)
  unfolding halves
  halves-EndsWell place zero =
      Always->>= (HasCounted (some 1)) _ (serve lossy turns place.path_string (some 1)) _
        (serve-HasCounted lossy turns place.path_string (some 1)) λ r counted. counted
  halves-EndsWell place (suc zero) = Always->> _ (client rounds place.socket_path) _ λ r. tt
  halves-EndsWell place (suc (suc i)) = tt

  -- A daemon that has ended by itself has served one call.
  served_one :
      (place : Place) (begun : S) (pool : Pool S Half) (l : Turned)
      → Reach may (spawned lossy turns rounds place begun) pool
      → pool.threads 0 ≡ ret (served (ok l))
      → goes_on (some 1) l.served ≡ false
      → l.served ≡ 1
  served_one place begun pool l reach here over =
      let good =
        Reach-IsGood may (λ s. Unit {0}) AnyCommand AnyAnswer (λ c s r t m f v. (tt, tt))
          (λ i. EndsWell) reach
          (record {
            shared = tt;
            threads = λ i. Always-Good may (λ s. Unit {0}) EndsWell _ (halves-EndsWell place i);
          }) in
      let most : Good may (λ s. Unit {0}) AnyCommand AnyAnswer EndsWell (ret (served (ok l))) =
        rw here at (good.threads 0) in
      let least = over_lem 1 l.served over in omega arith

  -- What a success stands on: a place from which the threads were spawned, and where they ended.
  pub record Passed (s : S) (text : Text) : Type 0 where
    pub place : Place
    pub begun : S
    pub pool : Pool S Half
    pub l : Turned
    pub reply : Text
    pub located : Yields may (prepared to_str) s (ok place) begun
    pub reached : Reach may (spawned lossy turns rounds place begun) pool
    pub served_lem : (pool.threads 0 ≡ ret (served (ok l))) × (l.served ≡ 1)
    pub reply_lem : pool.threads 1 ≡ ret (read (some (ok reply)))
    pub hello : says_hello reply ≡ true
    pub text_lem : text ≡ passing trim reply

  abbrev pub IsSound : S → Result Text Failed → Type 0
  IsSound s (ok text) = Passed s text
  IsSound s (err error) = Unit

  joined-IsSound :
      (place : Place) (s begun : S) (pool : Pool S Half) (l : Turned) (reply : Result Text IoError)
      (r : Result Text Failed)
      → Yields may (prepared to_str) s (ok place) begun
      → Reach may (spawned lossy turns rounds place begun) pool
      → pool.threads 0 ≡ ret (served (ok l))
      → l.served ≡ 1
      → pool.threads 1 ≡ ret (read (some reply))
      → IsHeard debug trim reply r
      → IsSound s r
  joined-IsSound place s begun pool l (ok reply) (ok text) at reach here one read_it (h, e) =
      record {
        place = place;
        begun = begun;
        pool = pool;
        l = l;
        reply = reply;
        located = at;
        reached = reach;
        served_lem = (here, one);
        reply_lem = read_it;
        hello = h;
        text_lem = e;
      }
  joined-IsSound place s begun pool l (ok reply) (err f) at reach here one read_it h = tt
  joined-IsSound place s begun pool l (err error) (ok text) at reach here one read_it h = absurd h
  joined-IsSound place s begun pool l (err error) (err f) at reach here one read_it h = tt

  self_test-IsSound :
      (s t : S) (r : Result Text Failed)
      → SelfTested lossy debug trim to_str turns rounds may s r t
      → IsSound s r
  self_test-IsSound s t r (unplaced error t' y) = tt
  self_test-IsSound s t r (unserved place begun pool error y reach here) = tt
  self_test-IsSound s t r (joined place begun pool l reply r' t' y reach here over read_it after) =
      joined-IsSound place s begun pool l reply r y reach here
        (served_one place begun pool l reach here over) read_it
        (Always-Yields may (IsHeard debug trim reply) _ pool.shared t r
          (ended-IsHeard debug trim place.dir reply) after)

  -- What `main` returns, by its first argument.
  abbrev IsSoundFor : Option Text → S → Result Text Failed → Type 0
  IsSoundFor first s (ok text) = (mode first ≡ self_testing) × Passed s text
  IsSoundFor first s (err error) = Unit

  tested-IsSoundFor :
      (first : Option Text) (s : S) (r : Result Text Failed)
      → mode first ≡ self_testing
      → IsSound s r
      → IsSoundFor first s r
  tested-IsSoundFor first s (ok text) e sound = (e, sound)
  tested-IsSoundFor first s (err error) e sound = tt

  main-IsSoundFor :
      (first : Option Text) (s t : S) (r : Result Text Failed)
      → Returns lossy debug trim to_str turns rounds may first s r t
      → IsSoundFor first s r
  main-IsSoundFor first s t r (self_tested r' t' e tested) =
      tested-IsSoundFor first s r e (self_test-IsSound s t r tested)
  main-IsSoundFor first s t r (not_bound path error t' e y) = tt
  main-IsSoundFor first s t r (stopped path l t' e y over) = absurd (unending l.served over)

  -- However the commands of the two threads interleave and whatever they are answered, `main`
  -- returns without an error only from the self-test, when the daemon's thread has returned with
  -- exactly one call served and the client's with a reply that contains "said: hello", which the
  -- text for stdout repeats, trimmed.
  pub main_succeeds :
      (first : Option Text) (s t : S) (text : Text)
      → Returns lossy debug trim to_str turns rounds may first s (ok text) t
      → (mode first ≡ self_testing) × Passed s text
  main_succeeds first s t text returned = main-IsSoundFor first s t (ok text) returned
