-- ===== src/Gatekeeper/Plain.antt =====
-- What a refusal of the gate writes, in the journal and to the client.
use uds_policy.Common.{
  ◌≡◌, err, List, [], ◌∷◌, Text, codes, arith, All, IsOneLine, IsOneLine-format, inl, inr,
}
use uds_policy.System.{Byte, Fd, Handler, run}
use uds_policy.System.Journal.{printed}
use uds_policy.Call
use uds_policy.Caller.{Caller}
use uds_policy.Caller.Names.{Cache}
use uds_policy.Caller.Names.Memo.{with_cache}
use uds_policy.Caller.Names.Plain.{PlainCache}
use uds_policy.Caller.Render.Plain.{PlainCaller, IsOneLine-display}
use uds_policy.Authorization.{Denial, PeerGate, authorize, peer_gate}
use uds_policy.Authorization.Plain.{denial-IsOneLine}
use uds_policy.Audit.Plain.{PlainCall, IsOneLine-call}
use uds_policy.Gatekeeper.{daemon, change, answer}
use uds_policy.Gatekeeper.Answer.{replies, answer_gated, rendered}

change_plain : PlainCall change
unfolding Call.gated
change_plain = (omega arith, omega arith, omega arith)

module _ (lossy : List Byte → Text) {S : Type 0} (h : Handler S) (stream : Fd) (caller : Caller)
    (gate : PeerGate) (w : Cache × S) where
  -- Neither the journal line of a connection that a PeerGate refuses nor the reply that it gets can
  -- be split in two by an account name, if the reason of an unreadable caller is on one line and so
  -- are the names already cached.
  pub refusal-IsOneLine :
      (denial : Denial)
      → authorize gate change caller ≡ err denial
      → PlainCaller caller
      → PlainCache w.0
      → let t = (run (with_cache h) (answer lossy stream caller (peer_gate gate)) w).trace in
        All IsOneLine (printed t) × All IsOneLine (replies t)
  unfolding peer_gate
  refusal-IsOneLine denial e p q =
      let by = IsOneLine-display h caller w q p in
      elim (answer_gated lossy (with_cache h) stream caller w (peer_gate gate)) [
        | inl (d, e', (line, none_read, reply)) ↦
            (let why = denial-IsOneLine gate change caller d change_plain p e' in
              (
                rw line (
                  IsOneLine-format
                      (daemon
                        ∷ codes ": refused "
                        ∷ Call.display change
                        ∷ codes " for "
                        ∷ rendered lossy (with_cache h) stream caller w
                        ∷ codes ": "
                        ∷ d.reason
                        ∷ [])
                      (
                        omega arith,
                        (
                          omega arith,
                          (
                            IsOneLine-call change change_plain,
                            (omega arith, (by, (omega arith, (why, tt)))),
                          ),
                        ),
                      ),
                  tt,
                ),
                rw reply (
                  IsOneLine-format (codes "refused: " ∷ d.reason ∷ []) (omega arith, (why, tt)),
                  tt,
                ),
              ))
        | inr (e', _) ↦ absurd (cc (e, e'))
      ]
