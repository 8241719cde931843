-- ===== src/Authorization/Tests.antt =====
-- Runs of src/authorization.rs, and its theorems at concrete inputs.
use uds_policy.Common.{◌≡◌, refl, ◌⊎◌, ◌↔◌, ok, err, [], ◌∷◌, codes, decimal, pos}
use uds_policy.Call
use uds_policy.Call.{Call, gated, unprivileged}
use uds_policy.Caller.{Caller, peer, unreadable}
use uds_policy.Authorization.{Denial, authorize, for_uids, default_gate, contains}
use uds_policy.Authorization.Decisions.{
  Admits, HasNoPeer, default_gate_iff, Explains, authorize_verdict,
}

abbrev change : Call
change = gated (codes "Thing") (codes "Change") (codes "org.example.thing.change")

abbrev stranger : Caller
stranger = peer (pos 7) 1001 4

abbrev unknown : Caller
unknown = unreadable (codes "Socket operation on non-socket")

listed_admitted : authorize (for_uids (1000 ∷ [])) change (peer (pos 7) 1000 4) ≡ ok tt
unfolding authorize for_uids contains
listed_admitted = refl

stranger_refused :
    authorize (for_uids (1000 ∷ [])) change stranger
    ≡ err (record { reason = codes "uid 1001 gid 4 may not call Thing.Change" })
unfolding authorize for_uids contains Call.display Call.gated decimal
stranger_refused = refl

authorize_verdict_example :
    (Admits (for_uids (1000 ∷ [])) stranger
      × (authorize (for_uids (1000 ∷ [])) change stranger ≡ ok tt))
    ⊎ ((¬ Admits (for_uids (1000 ∷ [])) stranger)
        × ((d : Denial) × (authorize (for_uids (1000 ∷ [])) change stranger ≡ err d)
            × Explains change stranger d.reason))
authorize_verdict_example = authorize_verdict (for_uids (1000 ∷ [])) change stranger

default_gate_iff_example : (authorize default_gate change unknown ≡ ok tt) ↔ HasNoPeer unknown
default_gate_iff_example = default_gate_iff change unknown
