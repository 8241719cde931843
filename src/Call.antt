-- ===== src/Call.antt =====
-- src/call.rs: what the daemon was asked to do, in its contract's words.
mod UnitTests
use uds_policy.Common.{Option, none, some, Text, codes, format, [], ◌∷◌}

pub data Authorization : Type 0 where
  unprivileged_tag : Authorization
  policy : Text → Authorization

pub record Call : Type 0 where
  pub object : Text
  pub method : Text
  pub authorization : Authorization

-- `Call::unprivileged`
unfoldable pub unprivileged : Text → Text → Call
unprivileged object method = record {
  object = object;
  method = method;
  authorization = unprivileged_tag;
}

-- `Call::gated`
unfoldable pub gated : Text → Text → Text → Call
gated object method action = record {
  object = object;
  method = method;
  authorization = policy action;
}

action_of : Authorization → Option Text
action_of (policy action) = some action
action_of unprivileged_tag = none

-- `Call::action`
unfoldable pub action : Call → Option Text
unfolding action_of
action call = action_of call.authorization

-- `Display for Call`
unfoldable pub display : Call → Text
display call = format (call.object ∷ codes "." ∷ call.method ∷ [])
