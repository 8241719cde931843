-- ===== src/Authorization.antt =====
-- src/authorization.rs: the gate between a named call and the code that runs it.
pub mod Decisions
pub mod Plain
mod Tests
mod UnitTests
use uds_policy.Common.{
  ℕ, Bool, true, false, ◌||◌, Option, Result, ok, err, List, [], ◌∷◌, ◌++◌, Text, codes, format,
  decimal, ◌==◌, if◌then◌else◌,
}
use uds_policy.Call
use uds_policy.Call.{Call, Authorization, policy, unprivileged_tag}
use uds_policy.Caller.{Caller, peer, unreadable, in_process}

pub record Denial : Type 0 where
  pub reason : Text

-- `Denial::new`
abbrev pub new : Text → Denial
new reason = record { reason = reason }

abbrev pub into_result : Denial → Result (Unit {0}) Denial
into_result denial = err denial

-- The trait `Authorizer`.
pub record Authorizer : Type 0 where
  pub authorize : Call → Caller → Result (Unit {0}) Denial

unfoldable pub allow_socket_peers : Authorizer
allow_socket_peers = record { authorize = λ call caller. ok tt }

-- the parts of each `format!`
deny_all_parts : Authorization → Call → List Text
deny_all_parts (policy action) call =
    codes "authorization required for " ∷ action ∷ codes " before " ∷ Call.display call ∷ []
deny_all_parts unprivileged_tag call =
    codes "this daemon is not accepting calls: " ∷ Call.display call ∷ []

unlisted_parts : ℕ → ℕ → Call → List Text
unlisted_parts uid gid call =
    codes "uid "
    ∷ decimal uid
    ∷ codes " gid "
    ∷ decimal gid
    ∷ codes " may not call "
    ∷ Call.display call
    ∷ []

unidentified_parts : Text → List Text
unidentified_parts reason =
    codes "the caller could not be identified ("
    ∷ reason
    ∷ codes "), and this daemon does not serve unidentified callers"
    ∷ []

unfoldable pub deny_all : Authorizer
unfolding deny_all_parts
deny_all = record {
  authorize = λ call caller. into_result (new (format (deny_all_parts call.authorization call)));
}

-- `PeerGate`; a `BTreeSet<u32>` is only asked for membership, and is the list it was collected from.
pub record PeerGate : Type 0 where
  pub allowed_uids : List ℕ
  pub allowed_gids : List ℕ
  pub reject_unreadable_caller : Bool

-- `BTreeSet::contains`
unfoldable pub contains : List ℕ → ℕ → Bool
contains [] a = false
contains (x ∷ xs) a = x == a || contains xs a

unfoldable pub for_uids : List ℕ → PeerGate
for_uids uids = record { allowed_uids = uids; allowed_gids = []; reject_unreadable_caller = true }

unfoldable pub for_gids : List ℕ → PeerGate
for_gids gids = record { allowed_uids = []; allowed_gids = gids; reject_unreadable_caller = true }

-- `PeerGate::default`
unfoldable pub default_gate : PeerGate
default_gate = record { allowed_uids = []; allowed_gids = []; reject_unreadable_caller = false }

-- `authorize` of `PeerGate`
unfoldable pub authorize : PeerGate → Call → Caller → Result (Unit {0}) Denial
unfolding unlisted_parts unidentified_parts
authorize gate call (peer pid uid gid) =
    if contains gate.allowed_uids uid || contains gate.allowed_gids gid
    then ok tt
    else err (new (format (unlisted_parts uid gid call)))
authorize gate call in_process = ok tt
authorize gate call (unreadable reason) =
    if gate.reject_unreadable_caller then err (new (format (unidentified_parts reason))) else ok tt

unfoldable pub peer_gate : PeerGate → Authorizer
peer_gate gate = record { authorize = authorize gate }
