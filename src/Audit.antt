-- ===== src/Audit.antt =====
-- src/audit.rs: an operation that announces itself and reports its outcome.
pub mod Lines
pub mod Plain
pub mod Interleaved
mod Tests
mod UnitTests
use uds_policy.Common.{
  is_some, ℕ, ◌-◌, ◌/◌, Bool, true, false, Option, none, some, [], ◌∷◌, Text, codes, format,
  decimal, flatten,
}
use uds_policy.System.{Instant, Io, ret, ask, now, eprintln, ◌>>=◌, ◌>>◌}
use uds_policy.Call
use uds_policy.Call.{Call, Authorization, policy, unprivileged_tag}
use uds_policy.Caller.{Caller}
use uds_policy.Caller.Render

-- `MAX_FAILURE_CHARS`
abbrev pub max_failure_chars : ℕ
max_failure_chars = 256

pub record Operation : Type 0 where
  pub service : Text
  pub label : Option Text
  pub started : Instant

unfoldable pub bound : Text → Text
bound value = flatten max_failure_chars value

unfoldable pub describe : Call → Text → Caller → Io Text
describe call action caller = do
  by ← Render.display caller
  ret (format (Call.display call ∷ codes " action=" ∷ action ∷ codes " by=" ∷ by ∷ []))

-- the `let … else` on the call's authorization
pub announce : Text → Call → Caller → Instant → Authorization → Io Operation
announce service call caller started unprivileged_tag =
    ret (record { service = service; label = none; started = started })
announce service call caller started (policy action) = do
  label ← describe call action caller
  ask (eprintln (format (service ∷ codes ": audit: begin " ∷ label ∷ [])))
  ret (record { service = service; label = some label; started = started })

-- `Operation::begin`
unfoldable pub begin : Text → Call → Caller → Io Operation
unfolding announce
begin service call caller = do
  started ← ask now
  announce service call caller started call.authorization

-- `Operation::is_audited`
unfoldable pub is_audited : Operation → Bool
is_audited op = is_some op.label

-- `Duration::as_millis`
abbrev pub as_millis : ℕ → ℕ
as_millis d = d / 1_000_000

-- the arms of the `match` on the failure
pub outcome_line : Text → Text → ℕ → Option Text → Text
unfolding bound
outcome_line service label millis none =
    format (service ∷ codes ": audit: ok " ∷ label ∷ codes " (" ∷ decimal millis ∷ codes "ms)" ∷ [])
outcome_line service label millis (some reason) = format (
    service
    ∷ codes ": audit: failed "
    ∷ label
    ∷ codes " ("
    ∷ decimal millis
    ∷ codes "ms): "
    ∷ bound reason
    ∷ [])

pub report : Text → Instant → Option Text → Option Text → Io (Unit {0})
unfolding outcome_line
report service started failure none = ret tt
report service started failure (some label) = do
  stopped ← ask now
  ask (eprintln (outcome_line service label (as_millis (stopped - started)) failure))

-- `Operation::finish`; `Instant::elapsed` is `now - started`, and 0 if the clock went back
unfoldable pub finish : Operation → Option Text → Io (Unit {0})
unfolding report
finish op failure = report op.service op.started failure op.label
