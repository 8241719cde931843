-- ===== src/Gatekeeper/SelfTest/Whole/Verdict.antt =====
-- What `self_test` of examples/gatekeeper.rs makes of its client's reply, whatever the gate's uid is.
use uds_policy.Common.{
  ℕ, ◌≡◌, refl, Bool, true, Bool-cases, inl, inr, Result, ok, err, is_ok, map_err, [], ◌∷◌, Text,
  codes, pos, format, contains_text,
}
use uds_policy.System.{FilePath, IoError}
use uds_policy.System.Always.{Always, Always->>=, Always->>}
use uds_policy.Caller.{peer, unreadable}
use uds_policy.Authorization.{PeerGate, authorize, for_uids}
use uds_policy.Gatekeeper.{daemon, change}
use uds_policy.Gatekeeper.Serve.{own}
use uds_policy.Gatekeeper.SelfTest.{next_uid, judged, gate_judged, stranger_judged}
use uds_policy.Gatekeeper.SelfTest.Halves.{Failed, said_why, ended, removed}

-- The text of a success, for the reply of the client.
abbrev pub passing : (Text → Text) → Text → Text
passing trim reply = format (daemon ∷ codes ": self-test ok: " ∷ trim reply ∷ [])

abbrev pub says_hello : Text → Bool
says_hello reply = contains_text reply (codes "said: hello")

module _ (debug trim : Text → Text) where
  -- A success is that of a reply that says hello.
  abbrev pub IsPassing : {E : Type 0} → Text → Result Text E → Type 0
  IsPassing reply (ok text) = (says_hello reply ≡ true) × (text ≡ passing trim reply)
  IsPassing reply (err error) = Unit

  stranger-IsPassing :
      (reply : Text) (gate : PeerGate) (uid : ℕ)
      → says_hello reply ≡ true
      → IsPassing reply (stranger_judged debug trim gate reply uid)
  unfolding stranger_judged
  stranger-IsPassing reply gate uid hello =
      elim (Bool-cases (is_ok (authorize gate change (peer (pos 1) (next_uid uid) 0)))) [
        | inl admitted ↦ rw admitted tt
        | inr rejected ↦ rw rejected (hello, refl)
      ]

  gate-IsPassing :
      (reply : Text) (gate : PeerGate)
      → says_hello reply ≡ true
      → Always (IsPassing reply) (gate_judged debug trim reply gate)
  unfolding gate_judged
  gate-IsPassing reply gate hello =
      elim (Bool-cases
        (is_ok (authorize gate change (unreadable (codes "Socket operation on non-socket"))))) [
          | inl admitted ↦ rw admitted tt
          | inr rejected ↦
              rw rejected (Always->> _ own _ λ uid. stranger-IsPassing reply gate uid hello)
        ]

  judged-IsPassing : (reply : Text) → Always (IsPassing reply) (judged debug trim reply)
  unfolding judged
  judged-IsPassing reply = elim (Bool-cases (says_hello reply)) [
    | inl hello ↦
        rw hello (Always->> _ own _ λ uid. gate-IsPassing reply (for_uids (uid ∷ [])) hello)
    | inr other ↦ rw other tt
  ]

  mapped-IsPassing :
      (reply : Text) (r : Result Text Text)
      → IsPassing reply r
      → IsPassing reply (map_err said_why r)
  mapped-IsPassing reply (ok text) p = p
  mapped-IsPassing reply (err why) p = tt

  removed-IsPassing :
      (reply : Text) (r : Result (Unit {0}) IoError)
      → Always (IsPassing reply) (removed debug trim reply r)
  unfolding removed
  removed-IsPassing reply (err error) = tt
  removed-IsPassing reply (ok u) =
      Always->>= (IsPassing reply) _ (judged debug trim reply) _ (judged-IsPassing reply)
        (mapped-IsPassing reply)

  -- What `self_test` returns behind its threads.
  abbrev pub IsHeard : Result Text IoError → Result Text Failed → Type 0
  IsHeard (ok reply) r = IsPassing reply r
  IsHeard (err error) (ok text) = ⊥
  IsHeard (err error) (err failed) = Unit

  pub ended-IsHeard :
      (dir : FilePath) (reply : Result Text IoError)
      → Always (IsHeard reply) (ended debug trim dir reply)
  unfolding ended
  ended-IsHeard dir (err error) = tt
  ended-IsHeard dir (ok reply) = removed-IsPassing reply
