-- ===== src/Exampled/Loop.antt =====
-- How long the documented daemon serves, whatever protocol it speaks: until the first accept that
-- fails. A connection is never refused.
use uds_policy.Common.{ℕ, zero, suc, ◌≡◌, refl, true, none, some, Result, ok, err, is_ok}
use uds_policy.System.{Fd, IoError, Io, Handler, run, run-bind}
use uds_policy.Caller.{Caller}
use uds_policy.Socket.Config.{Socket}
use uds_policy.Socket.Accept.{accept}
use uds_policy.Exampled.{authorized, turns}

is_ok-cases :
    (r : Result (Fd × Caller) IoError)
    → is_ok r ≡ true
    → (stream : Fd) × (caller : Caller) × (r ≡ ok (stream, caller))
is_ok-cases (ok (stream, caller)) e = (stream, caller, refl)
is_ok-cases (err error) e = cc

module _ (speak : Fd → Io (Unit {0})) {S : Type 0} (h : Handler S) (socket : Socket) where
  -- As long as every accept yields a connection, the daemon goes on.
  serves_on :
      ((t : S) → is_ok (run h (accept socket) t).result ≡ true)
      → (n : ℕ) (s : S) → (run h (turns speak n socket) s).result ≡ none
  unfolding turns
  serves_on yields zero s = refl
  serves_on yields (suc n) s =
      let (stream, caller, e) = is_ok-cases (run h (accept socket) s).result (yields s) in
      rw (run-bind h (accept socket))
        (rw e (rw (run-bind h (authorized speak stream caller _)) (serves_on yields n _)))

  -- An accept that fails ends the loop with its error, and nothing more is done in it.
  failure_ends :
      (n : ℕ) (s : S) (error : IoError)
      → (run h (accept socket) s).result ≡ err error
      → let o = run h (accept socket) s in
        let e = run h (turns speak (suc n) socket) s in
        (e.result ≡ some error) × (e.state ≡ o.state)
  unfolding turns
  failure_ends n s error fails = rw (run-bind h (accept socket)) (rw fails (refl, refl))
