-- ===== src/Authorization/UnitTests.antt =====
-- The unit tests of src/authorization.rs, under their names, and that they pass on the model.
use uds_policy.Common.{
  ℕ, ◌≡◌, refl, pos, Bool, true, false, not, ◌&&◌, Result, ok, err, is_ok, [], ◌∷◌, Text, codes,
  contains_text, decimal, All,
}
use uds_policy.Call
use uds_policy.Call.{Call, gated, unprivileged}
use uds_policy.Caller.{Caller, peer, unreadable, in_process}
use uds_policy.Authorization.{
  Denial, allow_socket_peers, deny_all, authorize, for_uids, for_gids, default_gate, contains,
}

-- `GATED`, `OPEN` and `peer`
abbrev gated_call : Call
unfolding gated
gated_call = gated (codes "Thing") (codes "Change") (codes "org.example.thing.change")

abbrev open_call : Call
unfolding unprivileged
open_call = unprivileged (codes "Thing") (codes "Read")

abbrev someone : ℕ → ℕ → Caller
someone uid gid = peer (pos 7) uid gid

-- `is_ok`, `is_err`, and a refusal whose reason holds a text
admits : Result (Unit {0}) Denial → Bool
admits = is_ok

refuses_with : Text → Result (Unit {0}) Denial → Bool
unfolding contains_text
refuses_with part (ok u) = false
refuses_with part (err denial) = contains_text denial.reason part

allow_socket_peers_admits_whatever_reached_the_socket : Bool
unfolding admits allow_socket_peers
allow_socket_peers_admits_whatever_reached_the_socket =
    admits (allow_socket_peers.authorize gated_call (someone 1000 1000))
    && admits (allow_socket_peers.authorize open_call in_process)

deny_all_names_the_action_it_would_have_needed : Bool
unfolding refuses_with deny_all
deny_all_names_the_action_it_would_have_needed =
    refuses_with (codes "org.example.thing.change")
      (deny_all.authorize gated_call (someone 1000 1000))

a_peer_gate_admits_a_listed_uid_and_refuses_the_rest : Bool
unfolding admits authorize for_uids
a_peer_gate_admits_a_listed_uid_and_refuses_the_rest =
    let gate = for_uids (1000 ∷ []) in
    admits (authorize gate gated_call (someone 1000 4))
    && not (admits (authorize gate gated_call (someone 1001 4)))

a_peer_gate_admits_a_listed_gid : Bool
unfolding admits authorize for_gids
a_peer_gate_admits_a_listed_gid =
    let gate = for_gids (970 ∷ []) in
    admits (authorize gate open_call (someone 1001 970))
    && not (admits (authorize gate open_call (someone 1001 971)))

an_empty_peer_gate_refuses_everyone : Bool
unfolding admits authorize default_gate
an_empty_peer_gate_refuses_everyone = not (admits (authorize default_gate gated_call (someone 0 0)))

an_unreadable_caller_is_refused_or_admitted_by_configuration : Bool
unfolding admits authorize for_uids
an_unreadable_caller_is_refused_or_admitted_by_configuration =
    let nobody = unreadable (codes "Socket operation on non-socket") in
    let strict = for_uids (1000 ∷ []) in
    let lenient = record strict { reject_unreadable_caller = false } in
    not (admits (authorize strict gated_call nobody))
    && admits (authorize lenient gated_call nobody)

a_refusal_names_the_call : Bool
unfolding refuses_with authorize for_uids
a_refusal_names_the_call =
    refuses_with (codes "Thing.Change")
      (authorize (for_uids (1000 ∷ [])) gated_call (someone 1001 4))

unit_tests_pass :
    All
      (λ passed. passed ≡ true)
      (allow_socket_peers_admits_whatever_reached_the_socket
        ∷ deny_all_names_the_action_it_would_have_needed
        ∷ a_peer_gate_admits_a_listed_uid_and_refuses_the_rest ∷ a_peer_gate_admits_a_listed_gid
        ∷ an_empty_peer_gate_refuses_everyone
        ∷ an_unreadable_caller_is_refused_or_admitted_by_configuration ∷ a_refusal_names_the_call
        ∷ [])
unfolding allow_socket_peers_admits_whatever_reached_the_socket
    deny_all_names_the_action_it_would_have_needed
    a_peer_gate_admits_a_listed_uid_and_refuses_the_rest a_peer_gate_admits_a_listed_gid
    an_empty_peer_gate_refuses_everyone an_unreadable_caller_is_refused_or_admitted_by_configuration
    a_refusal_names_the_call contains decimal Call.display gated unprivileged
unit_tests_pass = (refl, (refl, (refl, (refl, (refl, (refl, (refl, tt)))))))
