-- ===== src/Caller/Render.antt =====
-- `Caller::account_name` and `Display for Caller` of src/caller.rs.
pub mod Plain
pub mod Distinct
use uds_policy.Common.{
  ℕ, ℤ, ◌≡◌, refl, Option, none, some, [], ◌∷◌, ◌++◌, Text, codes, format, decimal, signed_decimal,
  arith,
}
use uds_policy.System.{Io, ret, ◌>>=◌, Handler, run}
use uds_policy.System.Journal.{printed}
use uds_policy.Caller.{Caller, peer, unreadable, in_process}
use uds_policy.Caller.Names.{name_for_uid}

-- `Caller::account_name`
unfoldable pub account_name : Caller → Io (Option Text)
account_name (peer pid uid gid) = name_for_uid uid
account_name _ = ret none

unfoldable pub numbers : ℤ → ℕ → ℕ → Text
numbers pid uid gid = format (
    codes "uid "
    ∷ decimal uid
    ∷ codes " gid "
    ∷ decimal gid
    ∷ codes " pid "
    ∷ signed_decimal pid
    ∷ [])

-- the arms of the `match` on `name_for_uid(uid)`
unfoldable pub named : Option Text → Text → Text
named (some name) n = format (name ∷ codes "(" ∷ n ∷ codes ")" ∷ [])
named none n = n

-- `Display for Caller`
unfoldable pub display : Caller → Io Text
unfolding named
display (peer pid uid gid) = do name ← name_for_uid uid; ret (named name (numbers pid uid gid))
display (unreadable reason) = ret (format (codes "unreadable (" ∷ reason ∷ codes ")" ∷ []))
display in_process = ret (codes "in-process")

module _ {S : Type 0} (h : Handler S) (s : S) where
  -- Rendering a caller writes nothing.
  pub printed-display : (c : Caller) → printed (run h (display c) s).trace ≡ []
  unfolding display name_for_uid
  printed-display (peer pid uid gid) = ground arith
  printed-display _ = refl
