-- ===== src/Gatekeeper/SelfTest/Wire/Shared.antt =====
-- One connection between the client of `self_test` and the daemon of examples/gatekeeper.rs, as two
-- threads may see it: what a socket documents of each end, and what each thread relies on.
use uds_policy.Common.{
  ℕ, zero, suc, ◌≡◌, ◌∙◌, refl, Bool, Bool-cases, true, false, ◌⊎◌, inl, inr, Result, ok, err,
  is_ok, List, [], ◌++◌, Text, codes,
}
use uds_policy.System.{
  Byte, Fd, IoError, Io, ret, ◌>>=◌, write_all, shutdown_write, read_to_end, write_line,
  read_to_string, accept_stream, connect_stream,
}
use uds_policy.System.Threads.{Answers}
use uds_policy.System.Threads.Guarantee.{Views}
use uds_policy.Caller.{Caller}
use uds_policy.Authorization.{Authorizer, Denial}
use uds_policy.Gatekeeper.{answer}
use uds_policy.Gatekeeper.SelfTest.Client.{spoken}
use uds_policy.Gatekeeper.SelfTest.Reply.{reply_line}

-- What was sent to the daemon, whether the client has closed its half, and what was written to the
-- client.
pub record Wired : Type 0 where
  pub asked : List Byte
  pub shut : Bool
  pub told : Text

abbrev pub IsPrefix : Text → Text → Type 0
IsPrefix part whole = (rest : Text) × (whole ≡ part ++ rest)

-- While the half is closed, it stays so and no more is sent.
abbrev pub Holds : Wired → Wired → Type 0
Holds s t = (s.shut ≡ false) ⊎ ((t.shut ≡ true) × (t.asked ≡ s.asked))

-- A write that fails may have sent a part.
abbrev pub Sent : List Byte → Wired → Result (Unit {0}) IoError → Wired → Type 0
Sent bytes s (ok u) t = (s.shut ≡ false) × (t ≡ record s { asked = s.asked ++ bytes })
Sent bytes s (err error) t = (t.told ≡ s.told) × Holds s t

abbrev pub Shut : Wired → Result (Unit {0}) IoError → Wired → Type 0
Shut s (ok u) t = t ≡ record s { shut = true }
Shut s (err error) t = t ≡ s

-- A read to the end returns once the half is closed.
abbrev pub Heard : Wired → Result (List Byte) IoError → Type 0
Heard s (ok bytes) = (s.shut ≡ true) × (bytes ≡ s.asked)
Heard s (err error) = Unit

abbrev pub Written : Text → Wired → Result (Unit {0}) IoError → Wired → Type 0
Written line s (ok u) t = t ≡ record s { told = s.told ++ (line ++ codes "\n") }
Written line s (err error) t =
    (part : Text) × IsPrefix part (line ++ codes "\n") × (t ≡ record s { told = s.told ++ part })

-- What was written so far, whether or not more will be.
abbrev pub Read : Wired → Result Text IoError → Type 0
Read s (ok text) = text ≡ s.told
Read s (err error) = Unit

-- There is one connection, with a descriptor at each end.
abbrev pub Connects : Fd → Result Fd IoError → Type 0
Connects fd (ok stream) = stream ≡ fd
Connects fd (err error) = Unit

-- A command on another descriptor may do anything; the clock, the journal, the account names and the
-- timeouts are not on the wire.
abbrev pub wire_may : Fd → Fd → Answers Wired
wire_may c d (write_all fd bytes) s r t = (¬ (fd ≡ c)) ⊎ Sent bytes s r t
wire_may c d (shutdown_write fd) s r t = (¬ (fd ≡ c)) ⊎ Shut s r t
wire_may c d (read_to_end fd) s r t = (¬ (fd ≡ d)) ⊎ ((t ≡ s) × Heard s r)
wire_may c d (write_line fd line) s r t = (¬ (fd ≡ d)) ⊎ Written line s r t
wire_may c d (read_to_string fd) s r t = (¬ (fd ≡ c)) ⊎ ((t ≡ s) × Read s r)
wire_may c d (accept_stream l) s r t = (t ≡ s) × Connects d r
wire_may c d (connect_stream p) s r t = (t ≡ s) × Connects c r
wire_may c d _ s r t = t ≡ s

-- How a thread ends.
pub data End : Type 0 where
  done : End
  heard : Result Text IoError → End

-- The daemon answers one call, and the client speaks; there is no other thread.
abbrev pub talk : (List Byte → Text) → Fd → Fd → Caller → Authorizer → ℕ → Io End
talk lossy c d caller authorizer zero = answer lossy d caller authorizer >>= (λ u. ret done)
talk lossy c d caller authorizer (suc zero) = spoken c >>= (λ r. ret (heard r))
talk lossy c d caller authorizer (suc (suc i)) = ret done

abbrev pub silent : Wired
silent = record { asked = []; shut = false; told = [] }

-- `Possible` says which verdicts the daemon may reach about the client.
module _ (lossy : List Byte → Text) (Possible : Result (Unit {0}) Denial → Type 0) where
  -- What the daemon is to write is settled: it reads nothing, or there is no more to read.
  abbrev pub Settled : Result (Unit {0}) Denial → Wired → Type 0
  Settled verdict s = (s.shut ≡ true) ⊎ (is_ok verdict ≡ false)

  -- The beginning of the one line that answers these words.
  abbrev pub IsAnswer : List Byte → Text → Type 0
  IsAnswer bytes text =
      (verdict : Result (Unit {0}) Denial) × Possible verdict
      × IsPrefix text (reply_line (lossy bytes) verdict ++ codes "\n")

  abbrev pub WellTold : Wired → Type 0
  WellTold s =
      (s.told ≡ [])
      ⊎ ((verdict : Result (Unit {0}) Denial) × Possible verdict
          × Settled verdict s
          × IsPrefix s.told (reply_line (lossy s.asked) verdict ++ codes "\n"))

  -- Only the daemon writes to the client, and only the client sends and closes its half.
  abbrev pub Later : ℕ → Wired → Wired → Type 0
  Later zero s t = (t.told ≡ s.told) × Holds s t
  Later (suc zero) s t = (t.asked ≡ s.asked) × (t.shut ≡ s.shut)
  Later (suc (suc i)) s t = Unit

  Holds-trans : (s t u : Wired) → Holds s t → Holds t u → Holds s u
  Holds-trans s t u (inl unshut) h = inl unshut
  Holds-trans s t u (inr (shut, e)) (inl unshut) = absurd (cc (shut, unshut))
  Holds-trans s t u (inr (shut, e)) (inr (still, f)) = inr (still, f ∙ e)

  pub Holds-refl : (s : Wired) → Holds s s
  Holds-refl s = elim (Bool-cases s.shut) [ inl shut ↦ inr (shut, refl) | inr unshut ↦ inl unshut ]

  pub Later-trans : (i : ℕ) (s t u : Wired) → Later i s t → Later i t u → Later i s u
  Later-trans zero s t u (e, h) (f, k) = (f ∙ e, Holds-trans s t u h k)
  Later-trans (suc zero) s t u (e, h) (f, k) = (f ∙ e, k ∙ h)
  Later-trans (suc (suc i)) s t u l m = tt

  pub Later-refl : (i : ℕ) (s : Wired) → Later i s s
  Later-refl zero s = (refl, Holds-refl s)
  Later-refl (suc zero) s = (refl, refl)
  Later-refl (suc (suc i)) s = tt

  abbrev pub views : Views Wired
  views = record {
    Inv = WellTold;
    Later = Later;
    later_refl = Later-refl;
    Later-trans = Later-trans;
  }
