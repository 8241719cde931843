-- ===== src/Gatekeeper.antt =====
-- `answer` and `exchange` of examples/gatekeeper.rs: one connection, authorized, audited and answered.
pub mod Answer
pub mod Serve
pub mod SelfTest
pub mod Plain
mod Tests
use uds_policy.Common.{ℕ, Option, none, some, Result, ok, err, List, [], ◌∷◌, Text, codes, format}
use uds_policy.System.{
  Byte, IoError, Fd, Io, ret, ask, ◌>>=◌, ◌>>◌, eprintln, read_to_end, write_line,
}
use uds_policy.Call
use uds_policy.Call.{Call}
use uds_policy.Caller.{Caller}
use uds_policy.Caller.Render
use uds_policy.Authorization.{Authorizer, Denial}
use uds_policy.Audit.{begin, finish}

-- `DAEMON`
abbrev pub daemon : Text
daemon = codes "echod"

-- `CHANGE`
abbrev pub change : Call
change = Call.gated (codes "Thing") (codes "Change") (codes "org.example.thing.change")

-- what is written for a refusal, in the journal and on the stream
abbrev pub refusal_line : Text → Text → Text
refusal_line by reason = format (
    daemon
    ∷ codes ": refused "
    ∷ Call.display change
    ∷ codes " for "
    ∷ by
    ∷ codes ": "
    ∷ reason
    ∷ [])

abbrev pub refusal_reply : Text → Text
refusal_reply reason = format (codes "refused: " ∷ reason ∷ [])

abbrev pub answered_line : Text → Text
answered_line by = format (daemon ∷ codes ": answered " ∷ by ∷ [])

-- `outcome.as_ref().err()`
abbrev pub failure_of : Result (Unit {0}) Text → Option Text
failure_of (ok _) = none
failure_of (err e) = some e

-- `lossy` is `String::from_utf8_lossy`.
module _ (lossy : List Byte → Text) where
  -- after `writeln!(stream, "{CHANGE} said: {said}")…?`
  pub replied : Caller → Result (Unit {0}) IoError → Io (Result (Unit {0}) Text)
  replied caller (err error) =
      ret (err (format (codes "the reply could not be written: " ∷ error.message ∷ [])))
  replied caller (ok _) = do
    by ← Render.display caller
    ask (eprintln (answered_line by))
    ret (ok tt)

  -- after `stream.read_to_end(&mut said)…?`
  said : Fd → Caller → Result (List Byte) IoError → Io (Result (Unit {0}) Text)
  unfolding replied
  said stream caller (err error) =
      ret (err (format (codes "the request could not be read: " ∷ error.message ∷ [])))
  said stream caller (ok bytes) = do
    r ← ask (write_line stream (format (Call.display change ∷ codes " said: " ∷ lossy bytes ∷ [])))
    replied caller r

  unfoldable pub exchange : Fd → Caller → Io (Result (Unit {0}) Text)
  unfolding said
  exchange stream caller = do r ← ask (read_to_end stream); said stream caller r

  -- the `if let` on the authorizer's verdict, and what follows it
  unfoldable pub answered : Fd → Caller → Result (Unit {0}) Denial → Io (Unit {0})
  answered stream caller (err denial) = do
    by ← Render.display caller
    ask (eprintln (refusal_line by denial.reason))
    ask (write_line stream (refusal_reply denial.reason))
    ret tt
  answered stream caller (ok _) = do
    audit ← begin daemon change caller
    outcome ← exchange stream caller
    finish audit (failure_of outcome)

  unfoldable pub answer : Fd → Caller → Authorizer → Io (Unit {0})
  answer stream caller authorizer = answered stream caller (authorizer.authorize change caller)
