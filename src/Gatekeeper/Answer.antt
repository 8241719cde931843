-- ===== src/Gatekeeper/Answer.antt =====
-- What `answer` of examples/gatekeeper.rs reads, writes and records of one connection.
use uds_policy.Common.{
  ℕ, ◌+◌, ◌-◌, ◌≡◌, refl, ap, ◌⊎◌, inl, inr, Result, ok, err, List, [], ◌∷◌, ◌++◌, Text, codes, suc,
  arith,
}
use uds_policy.System.{
  Byte, IoError, Fd, Event, Handler, Outcome, run, run-bind, now, read_to_end, read_to_string,
  write_line, write_all,
}
use uds_policy.System.Journal.{printed, printed-bind, printed-append}
use uds_policy.Caller.{Caller, peer}
use uds_policy.Caller.Render
use uds_policy.Caller.Names.{name_for_uid}
use uds_policy.Call
use uds_policy.Authorization.{Authorizer, Denial}
use uds_policy.Audit.{begin, as_millis}
use uds_policy.Audit.Lines.{label_at, begin_line, begin-gated, recorded_line, finish-label}
use uds_policy.Gatekeeper.{
  daemon, change, refusal_line, refusal_reply, answered_line, failure_of, replied, said, exchange,
  answered, answer,
}

-- How often a run read from a stream.
abbrev pub reads : List Event → ℕ
reads [] = 0
reads (e ∷ t) = elim e.command [
  | read_to_end f ↦ suc (reads t)
  | read_to_string f ↦ suc (reads t)
  | _ ↦ reads t
]

-- The lines and the bytes that a run wrote on streams, in order.
abbrev pub replies : List Event → List Text
replies [] = []
replies (e ∷ t) = elim e.command [
  | write_line f l ↦ l ∷ replies t
  | write_all f l ↦ l ∷ replies t
  | _ ↦ replies t
]

reads-append : (t u : List Event) → reads (t ++ u) ≡ reads t + reads u
reads-append [] u = omega arith
reads-append (e ∷ t) u = ground (arith, reads-append t u)

replies-append : (t u : List Event) → replies (t ++ u) ≡ replies t ++ replies u
replies-append [] u = refl
replies-append (e ∷ t) u = ground (arith, replies-append t u)

module _ {S : Type 0} (h : Handler S) (s : S) where
  -- Rendering a caller talks to no stream.
  display-IsQuiet :
      (c : Caller) → let t = (run h (Render.display c) s).trace in (reads t ≡ 0) × (replies t ≡ [])
  unfolding Render.display name_for_uid
  display-IsQuiet (peer pid uid gid) = ground arith
  display-IsQuiet _ = (refl, refl)

-- The action id of `CHANGE`.
abbrev pub change_action : Text
change_action = codes "org.example.thing.change"

-- `o` answered and says whom in one line, or failed and wrote nothing.
abbrev pub Concludes :
    {S : Type 0} → Handler S → Caller → Outcome (Result (Unit {0}) Text) S → Type 0
Concludes {S} h caller o =
    ((o.result ≡ ok tt)
      × ((s : S) × (printed o.trace ≡ answered_line (run h (Render.display caller) s).result ∷ [])))
    ⊎ ((e : Text) × (o.result ≡ err e) × (printed o.trace ≡ []))

module _ (lossy : List Byte → Text) {S : Type 0} (h : Handler S) (caller : Caller) where
  replied_lem :
      (r : Result (Unit {0}) IoError) (s : S)
      → let o = run h (replied lossy caller r) s in (reads o.trace ≡ 0) × Concludes h caller o
  unfolding replied
  replied_lem (err e) s = (refl, inr (_, refl, refl))
  replied_lem (ok u) s =
      let (none_read, _) = display-IsQuiet h s caller in
      let quiet = Render.printed-display h s caller in
      rw (run-bind h (Render.display caller)) (
        rw (reads-append (run h (Render.display caller) s).trace _) (rw none_read refl),
        inl (
          refl,
          (s, rw (printed-append (run h (Render.display caller) s).trace _) (rw quiet refl)),
        ),
      )

  said_lem :
      (stream : Fd) (r : Result (List Byte) IoError) (s : S)
      → let o = run h (said lossy stream caller r) s in (reads o.trace ≡ 0) × Concludes h caller o
  unfolding said
  said_lem stream (err e) s = (refl, inr (_, refl, refl))
  said_lem stream (ok bytes) s = replied_lem _ _

module _ (lossy : List Byte → Text) {S : Type 0} (h : Handler S) (stream : Fd) (caller : Caller)
    (s : S) where
  abbrev pub rendered : Text
  rendered = (run h (Render.display caller) s).result

  -- A refusal: one line in the journal, nothing read, and the reason on the stream.
  abbrev pub Refuses : Text → List Event → Type 0
  Refuses reason t =
      (printed t ≡ refusal_line rendered reason ∷ [])
      × (reads t ≡ 0)
      × (replies t ≡ refusal_reply reason ∷ [])

  abbrev pub work : Outcome (Result (Unit {0}) Text) S
  work = run h (exchange lossy stream caller) (run h (begin daemon change caller) s).state

  abbrev pub label : Text
  label = label_at h daemon change caller change_action s

  -- An audited call: a line before the work, what the work writes, and a line with its outcome.
  abbrev pub Audits : List Event → Type 0
  Audits t =
      printed t
      ≡ begin_line h daemon change caller label
        ++ (printed work.trace
            ++ recorded_line daemon label (as_millis ((h now work.state).0 - (h now s).0))
                (failure_of work.result)
              ∷ [])

  answered-err :
      (denial : Denial)
      → Refuses denial.reason (run h (answered lossy stream caller (err denial)) s).trace
  unfolding answered
  answered-err denial =
      let (none_read, none_written) = display-IsQuiet h s caller in
      let quiet = Render.printed-display h s caller in
      rw (run-bind h (Render.display caller)) (
        rw (printed-append (run h (Render.display caller) s).trace _) (rw quiet refl),
        rw (reads-append (run h (Render.display caller) s).trace _) (rw none_read refl),
        rw (replies-append (run h (Render.display caller) s).trace _) (rw none_written refl),
      )

  answered-ok : Audits (run h (answered lossy stream caller (ok tt)) s).trace
  unfolding answered Call.gated
  answered-ok =
      let (op, line) = begin-gated h daemon change caller change_action s refl in
      rw (printed-bind h (begin daemon change caller)) (
        rw line (
          ap (λ l. begin_line h daemon change caller label ++ l)
            (rw (printed-bind h (exchange lossy stream caller)) (
              ap (λ l. printed work.trace ++ l) rw op
                (finish-label h (failure_of work.result) daemon label (h now s).0 work.state)))))

  -- The gate decides before a byte is read: a refused connection is never read, gets the reason and
  -- leaves one line in the journal; one that is let through is announced before its work and its
  -- outcome is recorded after it, under one label.
  pub answer_gated :
      (authorizer : Authorizer)
      → let t = (run h (answer lossy stream caller authorizer) s).trace in
        ((denial : Denial) × (authorizer.authorize change caller ≡ err denial)
          × Refuses denial.reason t)
        ⊎ ((authorizer.authorize change caller ≡ ok tt) × Audits t)
  unfolding answer
  answer_gated authorizer = verdict (authorizer.authorize change caller)
    where
      verdict :
          (v : Result (Unit {0}) Denial)
          → let t = (run h (answered lossy stream caller v) s).trace in
            ((denial : Denial) × (v ≡ err denial) × Refuses denial.reason t)
            ⊎ ((v ≡ ok tt) × Audits t)
      verdict (ok _) = inr (refl, answered-ok)
      verdict (err denial) = inl (denial, refl, answered-err denial)

  -- The work reads the stream once; it succeeds with one line that says whom it answered, or fails
  -- with a reason and writes nothing in the journal.
  exchange_outcome :
      let o = run h (exchange lossy stream caller) s in (reads o.trace ≡ 1) × Concludes h caller o
  unfolding exchange
  exchange_outcome =
      let (none_more, end) = said_lem lossy h caller stream _ _ in (ap suc none_more, end)
