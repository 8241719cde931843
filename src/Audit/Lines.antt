-- ===== src/Audit/Lines.antt =====
-- How many lines an operation writes, and which.
use uds_policy.Common.{
  ℕ, ◌-◌, ◌≡◌, refl, sym, subst, true, false, Option, none, some, List, [], ◌∷◌, ◌++◌, ap,
  append-nil, ◌∙◌, decimal, Text, codes, format,
}
use uds_policy.System.{Handler, run, run-bind, Outcome, Io, now, ◌>>=◌}
use uds_policy.System.Journal.{printed, printed-bind}
use uds_policy.Call
use uds_policy.Call.{Call, Authorization, policy, unprivileged_tag}
use uds_policy.Caller.{Caller}
use uds_policy.Caller.Render
use uds_policy.Audit.{
  Operation, describe, announce, begin, finish, is_audited, outcome_line, as_millis, bound,
}

-- An operation from its announcement to its outcome.
unfoldable pub session : Text → Call → Caller → Option Text → Io (Unit {0})
session service call caller failure = do op ← begin service call caller; finish op failure

-- An operation around its work, which says why it failed, if it did.
unfoldable pub around : Text → Call → Caller → Io (Option Text) → Io (Unit {0})
around service call caller work = do
  op ← begin service call caller
  failure ← work
  finish op failure

abbrev verb : Option Text → Text
verb none = codes "ok"
verb (some reason) = codes "failed"

abbrev cause : Option Text → Text
cause none = []
cause (some reason) = codes ": " ++ bound reason

-- How an outcome reads: the service, whether the work failed, the label, the milliseconds that it took,
-- and the bounded reason of a failure.
abbrev pub recorded_line : Text → Text → ℕ → Option Text → Text
recorded_line service label millis failure =
    service
    ++ (codes ": audit: "
        ++ (verb failure
            ++ (codes " "
                ++ (label ++ (codes " (" ++ (decimal millis ++ (codes "ms)" ++ cause failure)))))))

pub outcome_line-recorded :
    (service label : Text) (millis : ℕ) (failure : Option Text)
    → outcome_line service label millis failure ≡ recorded_line service label millis failure
unfolding outcome_line
outcome_line-recorded service label millis none = refl
outcome_line-recorded service label millis (some reason) = rw append-nil refl

-- The label of a gated call, from the rendered caller.
abbrev pub label_of : Call → Text → Text → Text
label_of call action by =
    format (Call.display call ∷ codes " action=" ∷ action ∷ codes " by=" ∷ by ∷ [])

module _ {S : Type 0} (h : Handler S) (service : Text) (call : Call) (caller : Caller) where
  describe_lem :
      (action : Text) (s : S)
      → ((run h (describe call action caller) s).result
          ≡ label_of call action (run h (Render.display caller) s).result)
        × (printed (run h (describe call action caller) s).trace ≡ [])
  unfolding describe
  describe_lem action s = (
    rw run-bind refl,
    rw (printed-bind h (Render.display caller)) (rw Render.printed-display refl),
  )

  -- The label that a gated call announces.
  abbrev pub label_at : Text → S → Text
  label_at action s = label_of call action (run h (Render.display caller) (h now s).1).result

  -- `o` wrote `lines`, and its operation carries `label`.
  abbrev pub Announces : Outcome Operation S → Option Text → ℕ → List Text → Type 0
  Announces o label started lines =
      (o.result ≡ record { service = service; label = label; started = started })
      × (printed o.trace ≡ lines)

  abbrev pub begin_line : Text → List Text
  begin_line label = format (service ∷ codes ": audit: begin " ∷ label ∷ []) ∷ []

  announce-policy :
      (action : Text) (started : ℕ) (s : S)
      → let label = label_of call action (run h (Render.display caller) s).result in
        Announces
          (run h (announce service call caller started (policy action)) s)
          (some label)
          started
          (begin_line label)
  unfolding announce
  announce-policy action started s =
      let (label, quiet) = describe_lem action s in
      (
        rw run-bind (rw label refl),
        rw (printed-bind h (describe call action caller)) (rw (quiet, label) refl),
      )

  pub begin-gated :
      (action : Text) (s : S)
      → call.authorization ≡ policy action
      → Announces
          (run h (begin service call caller) s)
          (some (label_at action s))
          (h now s).0
          (begin_line (label_at action s))
  unfolding begin
  begin-gated action s e =
      subst
        (λ a.
          Announces (run h (announce service call caller (h now s).0 a) (h now s).1)
            (some (label_at action s)) (h now s).0 (begin_line (label_at action s)))
        (sym e) (announce-policy action (h now s).0 (h now s).1)

  pub begin-unprivileged :
      (s : S)
      → call.authorization ≡ unprivileged_tag
      → Announces (run h (begin service call caller) s) none (h now s).0 []
  unfolding begin announce
  begin-unprivileged s e =
      subst
        (λ a.
          Announces (run h (announce service call caller (h now s).0 a) (h now s).1) none
            (h now s).0 [])
        (sym e) (refl, refl)

module _ {S : Type 0} (h : Handler S) (failure : Option Text) where
  pub finish-label :
      (service label : Text) (started : ℕ) (s : S)
      → printed
          (run h
            (finish (record { service = service; label = some label; started = started }) failure)
            s).trace
        ≡ recorded_line service label (as_millis ((h now s).0 - started)) failure ∷ []
  unfolding finish
  finish-label service label started s =
      ap (λ line. line ∷ [])
        (outcome_line-recorded service label (as_millis ((h now s).0 - started)) failure)

  pub finish-none :
      (service : Text) (started : ℕ) (s : S)
      → printed
          (run h
            (finish (record { service = service; label = none; started = started }) failure)
            s).trace
        ≡ []
  unfolding finish
  finish-none service started s = refl

module _ {S : Type 0} (h : Handler S) (service : Text) (call : Call) (caller : Caller)
    (work : Io (Option Text)) (s : S) where
  abbrev begun : Outcome Operation S
  begun = run h (begin service call caller) s

  -- The work, from where the announcement left off.
  abbrev worked : Outcome (Option Text) S
  worked = run h work begun.state

  -- What is written around the work, and whether the operation says that it is audited.
  abbrev pub Brackets : Authorization → List Text → Type 0
  Brackets unprivileged_tag lines =
      (lines ≡ printed worked.trace) × (is_audited begun.result ≡ false)
  Brackets (policy action) lines =
      let label = label_at h service call caller action s in
      (lines
        ≡ begin_line h service call caller label
          ++ (printed worked.trace
              ++ recorded_line service label (as_millis ((h now worked.state).0 - (h now s).0))
                  worked.result
                ∷ []))
      × (is_audited begun.result ≡ true)

  printed-around :
      (op : Operation) (lines last : List Text)
      → begun.result ≡ op
      → printed begun.trace ≡ lines
      → printed (run h (finish op worked.result) worked.state).trace ≡ last
      → printed (run h (around service call caller work) s).trace
        ≡ lines ++ (printed worked.trace ++ last)
  unfolding around
  printed-around op lines last r p q =
      rw (printed-bind h (begin service call caller))
        (rw (printed-bind h work (finish begun.result)) (rw (p, r, q) refl))

  pub around-Brackets-at :
      (a : Authorization)
      → call.authorization ≡ a
      → Brackets a (printed (run h (around service call caller work) s).trace)
  around-Brackets-at unprivileged_tag e =
      let (r, p) = begin-unprivileged h service call caller s e in
      (
        printed-around _ _ _ r p (finish-none h worked.result service (h now s).0 worked.state)
            ∙ append-nil _,
        rw r (unfold is_audited in refl),
      )
  around-Brackets-at (policy action) e =
      let (r, p) = begin-gated h service call caller action s e in
      (
        printed-around _ _ _ r p (finish-label h worked.result service _ (h now s).0 worked.state),
        rw r (unfold is_audited in refl),
      )

  -- A gated operation writes a line before its work, with the call's name, its action id and the
  -- rendered caller, and one after it: whether the work failed, the same label, the milliseconds
  -- between its two readings of the clock, one before and one after the work, and the bounded reason
  -- of a failure. An unprivileged one leaves only what the work writes. Each says which it is.
  pub around-Brackets :
      Brackets call.authorization (printed (run h (around service call caller work) s).trace)
  around-Brackets = around-Brackets-at call.authorization refl
