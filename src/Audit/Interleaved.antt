-- ===== src/Audit/Interleaved.antt =====
-- Operations of several threads that write to one journal, interleaved line by line.
use uds_policy.Common.{
  ℕ, ◌≡◌, refl, sym, subst, ◌-◌, ap, ◌⊎◌, inl, inr, Option, some, List, [], ◌∷◌, ◌++◌, append_assoc,
  Text, codes, format,
}
use uds_policy.System.{Command, Answer, Io, ret, exec, eprintln}
use uds_policy.System.Threads.{Answers, Pool, Reach}
use uds_policy.System.Threads.Rely.{Rely, Secure, Secure->>=, IsSecure, Reach-IsSecure, Reach-Later}
use uds_policy.Call.{Call, policy}
use uds_policy.Caller.{Caller}
use uds_policy.Caller.Render
use uds_policy.Audit.{Operation, describe, announce, begin, report, finish, as_millis}
use uds_policy.Audit.Lines.{session, label_of, recorded_line, outcome_line-recorded}

-- The lines of the journal, newest first. A line is written whole; all other answers are free.
abbrev pub Journal : Type 0
Journal = List Text

abbrev pub journal_may : Answers Journal
journal_may (eprintln l) s r t = t ≡ l ∷ s
journal_may _ s r t = t ≡ s

abbrev pub IsIn : Text → Journal → Type 0
IsIn l [] = ⊥
IsIn l (x ∷ j) = (l ≡ x) ⊎ IsIn l j

-- `first` was written and `then_written` after it.
abbrev pub InOrder : Text → Text → Journal → Type 0
InOrder first then_written [] = ⊥
InOrder first then_written (x ∷ j) =
    ((then_written ≡ x) × IsIn first j) ⊎ InOrder first then_written j

IsIn-append : (l : Text) (more j : Journal) → IsIn l j → IsIn l (more ++ j)
IsIn-append l [] j h = h
IsIn-append l (x ∷ more) j h = inr (IsIn-append l more j h)

InOrder-append : (a b : Text) (more j : Journal) → InOrder a b j → InOrder a b (more ++ j)
InOrder-append a b [] j h = h
InOrder-append a b (x ∷ more) j h = inr (InOrder-append a b more j h)

abbrev Later : Journal → Journal → Type 0
Later s t = (more : Journal) × (t ≡ more ++ s)

abbrev AnyCommand : Command → Type 0
AnyCommand c = Unit

climbs : (c : Command) (s : Journal) (r : Answer c) (t : Journal) → journal_may c s r t → Later s t
climbs (eprintln l) s r t m = (l ∷ [], m)
climbs _ s r t m = ([], m)

Later-trans : (s t u : Journal) → Later s t → Later t u → Later s u
Later-trans s t u (a, e) (b, f) = (b ++ a, rw (f, e) (rw append_assoc))

abbrev relying : Rely journal_may AnyCommand
relying = record {
  Inv = λ s. Unit {0};
  Later = Later;
  later_refl = λ s. ([], refl);
  Later-trans = Later-trans;
  keeps = λ c s r t m f v. (tt, climbs c s r t m);
}

abbrev SecureAt : {A : Type 0} → (A → Journal → Type 0) → Journal → Io A → Type 0
SecureAt = Secure journal_may AnyCommand relying

Secure_any : {A : Type 0} (m : Io A) (s : Journal) → SecureAt (λ a t. Unit) s m
Secure_any (ret a) s = tt
Secure_any (exec c k) s = (tt, λ s' r t l v m. Secure_any (k r) t)

-- The two lines of a gated operation.
abbrev pub opening : Text → Text → Text
opening service label = format (service ∷ codes ": audit: begin " ∷ label ∷ [])

module _ (service : Text) (call : Call) (caller : Caller) (failure : Option Text)
    (action : Text) where
  -- The operation's outcome stands behind its announcement, under one label.
  abbrev pub IsRecorded : Unit {0} → Journal → Type 0
  IsRecorded u j =
      (by : Text) × (millis : ℕ) × InOrder (opening service (label_of call action by))
        (recorded_line service (label_of call action by) millis failure) j

  abbrev IsAnnounced : Operation → Journal → Type 0
  IsAnnounced op j =
      (by : Text) × (op.service ≡ service)
      × (op.label ≡ some (label_of call action by))
      × IsIn (opening service (label_of call action by)) j

  IsRecorded-stable : (u : Unit {0}) (s t : Journal) → Later s t → IsRecorded u s → IsRecorded u t
  IsRecorded-stable u s t (more, e) (by, millis, o) =
      (by, millis, rw e (InOrder-append _ _ more s o))

  announce-Secure :
      (started : ℕ) (s : Journal)
      → SecureAt IsAnnounced s (announce service call caller started (policy action))
  unfolding begin describe
  announce-Secure started s =
      Secure->>= journal_may AnyCommand relying
        (λ label t. (by : Text) × (label ≡ label_of call action by)) IsAnnounced
        (describe call action caller) _ s
        (Secure->>= journal_may AnyCommand relying (λ by t. Unit) _ (Render.display caller) _ s
          (Secure_any (Render.display caller) s) (λ by t u. (by, refl)))
        (λ label t (by, e).
          (tt, λ s' r t' l v m. (by, refl, ap some e, rw m (inl (ap (opening service) (sym e))))))

  report-Secure :
      (by : Text) (started : ℕ) (s : Journal)
      → IsIn (opening service (label_of call action by)) s
      → SecureAt IsRecorded s (report service started failure (some (label_of call action by)))
  unfolding finish
  report-Secure by started s written = (
    tt,
    λ s1 stopped t1 l1 v1 m1. (
      tt,
      λ s2 r t2 l2 v2 m2.
          let kept : IsIn (opening service (label_of call action by)) t1 =
            rw (m1, l1.1) (IsIn-append _ l1.0 s written) in
          let still : IsIn (opening service (label_of call action by)) s2 =
            rw l2.1 (IsIn-append _ l2.0 t1 kept) in
          (
            by,
            as_millis (stopped - started),
            rw m2 (inl (sym (outcome_line-recorded _ _ _ failure), still)),
          ),
    ),
  )

  finish-Secure :
      (op : Operation) (s : Journal) → IsAnnounced op s → SecureAt IsRecorded s (finish op failure)
  unfolding finish
  finish-Secure op s (by, served, labelled, written) =
      subst (λ l. SecureAt IsRecorded s (report op.service op.started failure l)) (sym labelled)
        (subst
          (λ x.
            SecureAt IsRecorded s (report x op.started failure (some (label_of call action by))))
          (sym served) (report-Secure by op.started s written))

  session-Secure :
      (s : Journal)
      → call.authorization ≡ policy action
      → SecureAt IsRecorded s (session service call caller failure)
  unfolding session begin
  session-Secure s gated = (
    tt,
    λ s1 started t1 l v m.
        Secure->>= journal_may AnyCommand relying IsAnnounced IsRecorded
          (announce service call caller started call.authorization) _ t1
          (subst (λ a. SecureAt IsAnnounced t1 (announce service call caller started a)) (sym gated)
            (announce-Secure started t1))
          (λ op t a. finish-Secure op t a),
  )

-- Any number of threads that each run one gated operation, interleaved line by line in one journal:
-- what was written stays, and an operation that has ended has its announcement in the journal and,
-- written later, its outcome under the same label.
pub interleaved_sessions :
    (service : Text) (calls : ℕ → Call) (callers : ℕ → Caller) (failures : ℕ → Option Text)
    (actions : ℕ → Text) (j : Journal) (q : Pool Journal (Unit {0})) (i : ℕ)
    → ((i : ℕ) → (calls i).authorization ≡ policy (actions i))
    → Reach journal_may
        (record { shared = j; threads = λ i. session service (calls i) (callers i) (failures i) })
        q
    → q.threads i ≡ ret tt
    → ((more : Journal) × (q.shared ≡ more ++ j))
      × IsRecorded service (calls i) (callers i) (failures i) (actions i) tt q.shared
interleaved_sessions service calls callers failures actions j q i gated reach e =
    let Post : ℕ → Unit {0} → Journal → Type 0 =
      λ i. IsRecorded service (calls i) (callers i) (failures i) (actions i) in
    let stable : (i : ℕ) (u : Unit {0}) (s t : Journal) → Later s t → Post i u s → Post i u t =
      λ i. IsRecorded-stable service (calls i) (callers i) (failures i) (actions i) in
    let begun : IsSecure journal_may AnyCommand relying Post stable
        (record { shared = j; threads = λ i. session service (calls i) (callers i) (failures i) }) =
      record {
        shared = tt;
        threads =
            λ i. session-Secure service (calls i) (callers i) (failures i) (actions i) j (gated i);
      } in
    let ended = Reach-IsSecure journal_may AnyCommand relying Post stable reach begun in
    (Reach-Later journal_may AnyCommand relying Post stable reach begun, rw e at (ended.threads i))
