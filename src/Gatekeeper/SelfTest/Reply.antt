-- ===== src/Gatekeeper/SelfTest/Reply.antt =====
-- What the client of `self_test` reads from the daemon of examples/gatekeeper.rs.
use uds_policy.Common.{
  ◌≡◌, ◌∙◌, refl, Result, ok, err, List, [], ◌∷◌, ◌++◌, Text, codes, format, All, is_ok, true,
}
use uds_policy.System.{
  eprintln, Byte, Fd, IoError, Handler, run, run-bind, read_to_end, write_line, read_to_string,
}
use uds_policy.Call
use uds_policy.Caller.{Caller}
use uds_policy.Caller.Render
use uds_policy.Authorization.{Authorizer, Denial}
use uds_policy.Audit.{begin, finish}
use uds_policy.Gatekeeper.{
  refusal_line, refusal_reply, daemon, change, failure_of, replied, said, exchange, answered,
  answer,
}
use uds_policy.Gatekeeper.Serve.Bookkeeping.{
  display-Notes, begin-Notes, finish-Notes, replied-Notes,
}
use uds_policy.Gatekeeper.SelfTest.Client.{greeted}
use uds_policy.Gatekeeper.SelfTest.Wire.{
  IsUnharmed, Wire, IsUnharmed->>=, unwired, written_told, greeted_lem,
}

-- The line that answers these words.
abbrev pub said_line : Text → Text
said_line words = format (Call.display change ∷ codes " said: " ∷ words ∷ [])

-- What the client is to read, by the gate's verdict, of a request with these words.
abbrev pub reply_line : Text → Result (Unit {0}) Denial → Text
reply_line words (ok u) = said_line words
reply_line words (err denial) = refusal_reply denial.reason

module _ {S : Type 0} (h : Handler S) (c d : Fd) (wire : Wire h c d) where
  open wire use {asked, told, heard_lem, read_lem, noting_lem}

  module _ (lossy : List Byte → Text) (caller : Caller) where
    after_read :
        (r : Result (List Byte) IoError) (s : S)
        → is_ok r ≡ true
        → All IsUnharmed (run h (said lossy d caller r) s).trace
        → (bytes : List Byte) × (r ≡ ok bytes)
          × (told (run h (said lossy d caller r) s).state
              ≡ told s ++ (said_line (lossy bytes) ++ codes "\n"))
    unfolding exchange
    after_read (err error) s e u = cc
    after_read (ok bytes) s e u =
        let k = write_line d (said_line (lossy bytes)) in
        let r = (h k s).0 in
        let (_, kept) =
          unwired h c d wire (replied lossy caller r) (h k s).1 (replied-Notes lossy caller r) in
        (bytes, refl, kept ∙ written_told h c d wire (said_line (lossy bytes)) s u.0)

    -- Work in which nothing fails writes one line, with what was sent.
    exchange_lem :
        (s : S)
        → All IsUnharmed (run h (exchange lossy d caller) s).trace
        → told (run h (exchange lossy d caller) s).state
          ≡ told s ++ (said_line (lossy (asked s)) ++ codes "\n")
    unfolding exchange
    exchange_lem s u =
        let k = read_to_end d in
        let (bytes, r, t) = after_read (h k s).0 (h k s).1 u.0 u.1 in
        let (all, same) = heard_lem bytes s r in rw t (rw same (rw all refl))

    -- What a refusal writes after its line in the journal.
    refused_lem :
        (denial : Denial) (s : S)
        → All IsUnharmed (run h (answered lossy d caller (err denial)) s).trace
        → told (run h (answered lossy d caller (err denial)) s).state
          ≡ told s ++ (refusal_reply denial.reason ++ codes "\n")
    unfolding answered
    refused_lem denial s whole =
        let o = run h (Render.display caller) s in
        let line = eprintln (refusal_line o.result denial.reason) in
        let (_, rest) = IsUnharmed->>= h (Render.display caller) _ s whole in
        let (_, quiet) = unwired h c d wire (Render.display caller) s (display-Notes caller) in
        let (_, noted) = noting_lem line o.state tt in
        rw (run-bind h (Render.display caller)) (
          written_told h c d wire (refusal_reply denial.reason) (h line o.state).1 rest.1.0
          ∙ rw (noted, quiet) refl)

    -- What a connection that is let through has had written when its operation is over.
    served_lem :
        (s : S)
        → All IsUnharmed (run h (answered lossy d caller (ok tt)) s).trace
        → told (run h (answered lossy d caller (ok tt)) s).state
          ≡ told s ++ (said_line (lossy (asked s)) ++ codes "\n")
    unfolding answered
    served_lem s whole =
        let begun = run h (begin daemon change caller) s in
        let worked = run h (exchange lossy d caller) begun.state in
        let ending = finish begun.result (failure_of worked.result) in
        let (a, t) =
          unwired h c d wire (begin daemon change caller) s (begin-Notes daemon change caller) in
        let (_, v) =
          unwired h c d wire ending worked.state
            (finish-Notes begun.result (failure_of worked.result)) in
        let (_, rest) = IsUnharmed->>= h (begin daemon change caller) _ s whole in
        let (work, _) = IsUnharmed->>= h (exchange lossy d caller) _ begun.state rest in
        rw (run-bind h (begin daemon change caller)) (
          rw (run-bind h (exchange lossy d caller))
            (v ∙ exchange_lem begun.state work ∙ (rw (t, a) refl)))

    answered_lem :
        (verdict : Result (Unit {0}) Denial) (s : S)
        → All IsUnharmed (run h (answered lossy d caller verdict) s).trace
        → told (run h (answered lossy d caller verdict) s).state
          ≡ told s ++ (reply_line (lossy (asked s)) verdict ++ codes "\n")
    answered_lem (ok u) s whole = served_lem s whole
    answered_lem (err denial) s whole = refused_lem denial s whole

    -- If nothing is on the wire yet, the text that the client sends is decoded as it is, the client's
    -- sending succeeds and no read or write of the daemon's answer fails: what the client then reads
    -- is one line, which says its request if the gate lets it through, and otherwise the gate's
    -- reason.
    pub hello_answered :
        (authorizer : Authorizer) (s : S) (reply : Text)
        → asked s ≡ []
        → told s ≡ []
        → lossy (codes "hello") ≡ codes "hello"
        → (run h (greeted c) s).result ≡ ok tt
        → let t = (run h (greeted c) s).state in
          let o = run h (answer lossy d caller authorizer) t in
          All IsUnharmed o.trace
          → (h (read_to_string c) o.state).0 ≡ ok reply
          → reply ≡ reply_line (codes "hello") (authorizer.authorize change caller) ++ codes "\n"
    unfolding answer
    hello_answered authorizer s reply unasked untold decodes sent whole heard =
        let t = (run h (greeted c) s).state in
        let (a, b) = greeted_lem h c d wire s sent in
        rw
          (
            read_lem reply _ heard,
            answered_lem (authorizer.authorize change caller) t whole,
            b,
            untold,
            a,
            unasked,
            decodes,
          )
          refl
