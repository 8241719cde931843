-- ===== src/Authorization/Decisions.antt =====
-- Whom each authorizer admits, and what its refusals say.
use uds_policy.Common.{
  Bool-cases, decimal, ℕ, ◌≡◌, ◌↔◌, ◌⊎◌, inl, inr, refl, true, false, ◌||◌, ok, err, List, [], ◌∷◌,
  Text, arith, format, Contains, Contains-format,
}
use uds_policy.Call
use uds_policy.Call.{Call, Authorization, policy, unprivileged_tag}
use uds_policy.Caller.{Caller, peer, unreadable, in_process}
use uds_policy.Authorization.{
  Denial, PeerGate, contains, authorize, for_uids, for_gids, deny_all, deny_all_parts,
  unlisted_parts, unidentified_parts, default_gate,
}

-- `a` is one of the list's elements.
abbrev pub Among : ℕ → List ℕ → Type 0
Among a [] = ⊥
Among a (x ∷ xs) = (a ≡ x) ⊎ Among a xs

contains_iff : (xs : List ℕ) (a : ℕ) → (contains xs a ≡ true) ↔ Among a xs
unfolding contains
contains_iff [] a = ground arith
contains_iff (x ∷ xs) a = ground (arith, contains_iff xs a)

-- Whom a gate is meant to admit: a listed uid or gid, the daemon itself, and a caller that the
-- kernel would not report only if the gate is told to take it.
abbrev pub Admits : PeerGate → Caller → Type 0
Admits gate (peer pid uid gid) = Among uid gate.allowed_uids ⊎ Among gid gate.allowed_gids
Admits gate in_process = Unit
Admits gate (unreadable reason) = gate.reject_unreadable_caller ≡ false

-- A gate lets a call through exactly if it is meant to admit the caller, whatever the call is.
authorize_iff :
    (gate : PeerGate) (call : Call) (caller : Caller)
    → (authorize gate call caller ≡ ok tt) ↔ Admits gate caller
unfolding authorize
authorize_iff gate call (peer pid uid gid) =
    ground (arith, contains_iff gate.allowed_uids uid, contains_iff gate.allowed_gids gid)
authorize_iff gate call in_process = ground arith
authorize_iff gate call (unreadable reason) = ground arith

-- What a gate that was made by `for_uids` or `for_gids`, or by `default`, admits.
abbrev pub IsPeerWith : (ℕ → ℕ → Type 0) → Caller → Type 0
IsPeerWith P (peer pid uid gid) = P uid gid
IsPeerWith P in_process = Unit
IsPeerWith P (unreadable reason) = ⊥

-- `for_uids` admits the listed uids and the daemon itself, `for_gids` the listed gids and the
-- daemon itself; neither admits anyone else, and neither an unreadable caller.
constructed_gates_iff :
    (ids : List ℕ) (call : Call) (caller : Caller)
    → ((authorize (for_uids ids) call caller ≡ ok tt)
        ↔ IsPeerWith (λ uid gid. Among uid ids) caller)
      × ((authorize (for_gids ids) call caller ≡ ok tt)
          ↔ IsPeerWith (λ uid gid. Among gid ids) caller)
unfolding authorize for_uids for_gids contains
constructed_gates_iff ids call (peer pid uid gid) =
    ground (arith, contains_iff ids uid, contains_iff ids gid)
constructed_gates_iff ids call in_process = ground arith
constructed_gates_iff ids call (unreadable reason) = ground arith

abbrev pub HasNoPeer : Caller → Type 0
HasNoPeer (peer pid uid gid) = ⊥
HasNoPeer _ = Unit

-- The gate of `PeerGate::default` refuses every peer, and admits every unreadable caller.
pub default_gate_iff :
    (call : Call) (caller : Caller)
    → (authorize default_gate call caller ≡ ok tt) ↔ HasNoPeer caller
unfolding authorize default_gate contains
default_gate_iff call (peer pid uid gid) = ground arith
default_gate_iff call in_process = ground arith
default_gate_iff call (unreadable reason) = ground arith

abbrev pub NamesAction : Authorization → Text → Type 0
NamesAction (policy action) reason = Contains action reason
NamesAction unprivileged_tag reason = Unit

deny_all_parts-names :
    (call : Call) (a : Authorization)
    → Contains (Call.display call) (format (deny_all_parts a call))
      × NamesAction a (format (deny_all_parts a call))
unfolding deny_all_parts
deny_all_parts-names call (policy action) = (
  Contains-format _ (deny_all_parts (policy action) call) (inr (inr (inr (inl refl)))),
  Contains-format _ (deny_all_parts (policy action) call) (inr (inl refl)),
)
deny_all_parts-names call unprivileged_tag =
    (Contains-format _ (deny_all_parts unprivileged_tag call) (inr (inl refl)), tt)

-- `DenyAll` refuses every call of every caller, in words that hold the call's own name and, for a
-- gated call, the action id.
deny_all_names :
    (call : Call) (caller : Caller)
    → (d : Denial) × (deny_all.authorize call caller ≡ err d)
      × Contains (Call.display call) d.reason
      × NamesAction call.authorization d.reason
unfolding deny_all
deny_all_names call caller =
    let (name, action) = deny_all_parts-names call call.authorization in
    (record { reason = format (deny_all_parts call.authorization call) }, refl, name, action)

-- What a refusal by a gate tells: the call and both ids of a peer, or why it could not be read.
abbrev pub Explains : Call → Caller → Text → Type 0
Explains call (peer pid uid gid) reason =
    Contains (Call.display call) reason
    × Contains (decimal uid) reason
    × Contains (decimal gid) reason
Explains call (unreadable why) reason = Contains why reason
Explains call in_process reason = ⊥

-- A gate either admits a caller or refuses it in words that name the call, the uid and the gid of a
-- peer, or the reason for which the caller could not be read; it never refuses the daemon itself.
authorize_explained :
    (gate : PeerGate) (call : Call) (caller : Caller)
    → (authorize gate call caller ≡ ok tt)
      ⊎ ((d : Denial) × (authorize gate call caller ≡ err d) × Explains call caller d.reason)
unfolding authorize
authorize_explained gate call (peer pid uid gid) =
    elim (Bool-cases (contains gate.allowed_uids uid || contains gate.allowed_gids gid)) [
      | inl listed ↦ rw listed (inl refl)
      | inr unlisted ↦ rw unlisted (
          inr (
            record { reason = format (unlisted_parts uid gid call) },
            refl,
            (
              Contains-format _ (unlisted_parts uid gid call)
                  (inr (inr (inr (inr (inr (inl refl)))))),
              Contains-format _ (unlisted_parts uid gid call) (inr (inl refl)),
              Contains-format _ (unlisted_parts uid gid call) (inr (inr (inr (inl refl)))),
            ),
          ))
    ]
authorize_explained gate call in_process = inl refl
authorize_explained gate call (unreadable why) = elim (Bool-cases gate.reject_unreadable_caller) [
  | inl strict ↦ rw strict (
      inr (
        record { reason = format (unidentified_parts why) },
        refl,
        Contains-format _ (unidentified_parts why) (inr (inl refl)),
      ))
  | inr lenient ↦ rw lenient (inl refl)
]

-- A gate lets a call through exactly if it is meant to admit the caller, whatever the call is.
-- Otherwise it refuses it in words that name the call, the uid and the gid of a peer, or the reason
-- for which the caller could not be read.
pub authorize_verdict :
    (gate : PeerGate) (call : Call) (caller : Caller)
    → (Admits gate caller × (authorize gate call caller ≡ ok tt))
      ⊎ ((¬ Admits gate caller)
          × ((d : Denial) × (authorize gate call caller ≡ err d) × Explains call caller d.reason))
authorize_verdict gate call caller = elim (authorize_explained gate call caller) [
  | inl e ↦ inl ((authorize_iff gate call caller).0 e, e)
  | inr (d, e, explained) ↦
      inr (λ admitted. cc ((authorize_iff gate call caller).1 admitted, e), (d, e, explained))
]
