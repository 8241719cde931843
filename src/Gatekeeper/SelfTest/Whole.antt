-- ===== src/Gatekeeper/SelfTest/Whole.antt =====
-- `self_test` and `main` of examples/gatekeeper.rs as a whole, from the first command to what they
-- return: the test's daemon and its client are two threads, whose commands may fall in any order.
pub mod Verdict
pub mod Sound
mod Tests
use uds_policy.Common.{ℕ, ◌≡◌, Option, none, some, Result, ok, err, List, [], Text, false}
use uds_policy.System.{FilePath, Byte, IoError, ret}
use uds_policy.System.Threads.{Answers, Pool, Reach}
use uds_policy.System.Always.{Yields}
use uds_policy.Socket.Config.{BindError}
use uds_policy.Gatekeeper.Serve.{Turned, goes_on, serve}
use uds_policy.Gatekeeper.SelfTest.{mode, self_testing, serving_on}
use uds_policy.Gatekeeper.SelfTest.Halves.{
  Failed, unbound, Place, Half, served, read, halves, prepared, ended,
}

-- Both threads, before their first command.
abbrev pub spawned : {S : Type 0} → (List Byte → Text) → ℕ → ℕ → Place → S → Pool S Half
spawned lossy turns rounds place s = record {
  shared = s;
  threads = halves lossy turns rounds place;
}

-- `turns` and `rounds` are how many turns and rounds the accept loop and the client's wait may take;
-- neither loop returns before it has ended by itself.
module _ (lossy : List Byte → Text) (debug trim : Text → Text) (to_str : FilePath → Option Text)
    (turns rounds : ℕ) {S : Type 0} (may : Answers S) where
  -- `self_test`, begun in the first state, may return this and leave the last one.
  pub data SelfTested (s : S) : Result Text Failed → S → Type 0 where
    unplaced :
        (error : Failed) (t : S)
        → Yields may (prepared to_str) s (err error) t
        → SelfTested s (err error) t
    -- `serve(…)?` does not wait for the client
    unserved :
        (place : Place) (begun : S) (pool : Pool S Half) (error : BindError)
        → Yields may (prepared to_str) s (ok place) begun
        → Reach may (spawned lossy turns rounds place begun) pool
        → pool.threads 0 ≡ ret (served (err error))
        → SelfTested s (err (unbound error)) pool.shared
    joined :
        (place : Place) (begun : S) (pool : Pool S Half) (l : Turned) (reply : Result Text IoError)
        (r : Result Text Failed) (t : S)
        → Yields may (prepared to_str) s (ok place) begun
        → Reach may (spawned lossy turns rounds place begun) pool
        → pool.threads 0 ≡ ret (served (ok l))
        → goes_on (some 1) l.served ≡ false
        → pool.threads 1 ≡ ret (read (some reply))
        → Yields may (ended debug trim place.dir reply) pool.shared r t
        → SelfTested s r t

  -- `main`, with this first argument; what it prints on stdout is the text of its success.
  pub data Returns (first : Option Text) (s : S) : Result Text Failed → S → Type 0 where
    self_tested :
        (r : Result Text Failed) (t : S)
        → mode first ≡ self_testing
        → SelfTested s r t
        → Returns first s r t
    not_bound :
        (path : FilePath) (error : BindError) (t : S)
        → mode first ≡ serving_on path
        → Yields may (serve lossy turns path none) s (err error) t
        → Returns first s (err (unbound error)) t
    stopped :
        (path : FilePath) (l : Turned) (t : S)
        → mode first ≡ serving_on path
        → Yields may (serve lossy turns path none) s (ok l) t
        → goes_on none l.served ≡ false
        → Returns first s (ok []) t
