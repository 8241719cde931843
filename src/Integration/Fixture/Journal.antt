-- ===== src/Integration/Fixture/Journal.antt =====
-- What the daemon of tests/socket.rs writes on stderr.
use uds_policy.Common.{◌-◌, ◌≡◌, refl, Result, ok, err, List, [], ◌∷◌, ◌++◌, Text, codes}
use uds_policy.System.{Fd, IoError, Handler, run, now}
use uds_policy.System.Journal.{printed, printed-bind}
use uds_policy.Call
use uds_policy.Call.{Call}
use uds_policy.Caller.{Caller}
use uds_policy.Audit.{Operation, begin, finish, as_millis}
use uds_policy.Audit.Lines.{
  label_at, begin_line, begin-gated, begin-unprivileged, recorded_line, finish-label, finish-none,
}
use uds_policy.Integration.Fixture.{change, read, service, failure_of, replied, answered}

module _ {S : Type 0} (h : Handler S) (stream : Fd) where
  replied-printed :
      (call : Call) (r : Result Text IoError) (t : S)
      → printed (run h (replied stream call r) t).trace ≡ []
  unfolding replied
  replied-printed call (ok asked) t = refl
  replied-printed call (err error) t = refl

  module _ (trim : Text → Text) (left : IoError → Text) (caller : Caller) (r : Result Text IoError)
      (s : S) where
    -- Where a call's reply leaves the surroundings.
    abbrev worked : Call → S
    worked call = (run h (replied stream call r) (run h (begin service call caller) s).state).state

    answered-printed :
        (call : Call) (op : Operation) (lines last : List Text)
        → (run h (begin service call caller) s).result ≡ op
        → printed (run h (begin service call caller) s).trace ≡ lines
        → printed (run h (finish op (failure_of r)) (worked call)).trace ≡ last
        → printed (run h (answered trim left stream caller call r) s).trace ≡ lines ++ last
    unfolding answered
    answered-printed call op lines last e p q =
        rw (printed-bind h (begin service call caller))
          (rw (printed-bind h (replied stream call r)) (rw (p, replied-printed call r, e, q) refl))

    -- A change is announced, and its outcome recorded under the same label.
    change-printed :
        let label = label_at h service change caller (codes "org.example.thing.change") s in
        printed (run h (answered trim left stream caller change r) s).trace
        ≡ begin_line h service change caller label
          ++ recorded_line service label
              (as_millis ((h now (worked change)).0 - (h now s).0))
              (failure_of r)
            ∷ []
    change-printed =
        let action = codes "org.example.thing.change" in
        let (e, p) = begin-gated h service change caller action s (unfold Call.gated in refl) in
        answered-printed change _ _ _ e p (
          finish-label h (failure_of r) service (label_at h service change caller action s)
            (h now s).0 (worked change))

    -- Nothing is written about a read.
    read-printed : printed (run h (answered trim left stream caller read r) s).trace ≡ []
    read-printed =
        let (e, p) =
          begin-unprivileged h service read caller s (unfold Call.unprivileged in refl) in
        answered-printed read _ _ _ e p
          (finish-none h (failure_of r) service (h now s).0 (worked read))
