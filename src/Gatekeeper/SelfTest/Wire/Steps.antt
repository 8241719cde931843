-- ===== src/Gatekeeper/SelfTest/Wire/Steps.antt =====
-- What one command of the client, or of the daemon, leaves of the connection of a self-test.
use uds_policy.Common.{
  ℕ, zero, suc, ◌≡◌, ◌∙◌, refl, false, ◌⊎◌, inl, inr, Result, ok, err, is_ok, List, Text,
}
use uds_policy.System.{
  Byte, Fd, Command, Answer, write_all, shutdown_write, read_to_end, write_line, read_to_string,
  accept_stream, connect_stream,
}
use uds_policy.System.Threads.Guarantee.{Guaranteed}
use uds_policy.Authorization.{Denial}
use uds_policy.Gatekeeper.Serve.Bookkeeping.{IsNoting}
use uds_policy.Gatekeeper.SelfTest.Reply.{reply_line}
use uds_policy.Gatekeeper.SelfTest.Wire.Shared.{Wired, Holds, wire_may, WellTold, Later, views}

-- The commands that are not on the connection.
abbrev pub IsOffWire : Command → Type 0
IsOffWire (write_all fd b) = ⊥
IsOffWire (shutdown_write fd) = ⊥
IsOffWire (read_to_end fd) = ⊥
IsOffWire (write_line fd l) = ⊥
IsOffWire (read_to_string fd) = ⊥
IsOffWire _ = Unit

pub off_same :
    (c d : Fd) (k : Command) (s : Wired) (r : Answer k) (t : Wired)
    → IsOffWire k
    → wire_may c d k s r t
    → t ≡ s
off_same c d (write_all fd b) s r t q m = absurd q
off_same c d (shutdown_write fd) s r t q m = absurd q
off_same c d (read_to_end fd) s r t q m = absurd q
off_same c d (write_line fd l) s r t q m = absurd q
off_same c d (read_to_string fd) s r t q m = absurd q
off_same c d (accept_stream l) s r t q m = m.0
off_same c d (connect_stream p) s r t q m = m.0
off_same c d _ s r t q m = m

pub noting-IsOffWire : (k : Command) → IsNoting k → IsOffWire k
noting-IsOffWire (write_all fd b) q = absurd q
noting-IsOffWire (shutdown_write fd) q = absurd q
noting-IsOffWire (read_to_end fd) q = absurd q
noting-IsOffWire (write_line fd l) q = absurd q
noting-IsOffWire (read_to_string fd) q = absurd q
noting-IsOffWire _ q = tt

-- A command on the descriptor that it is made on.
pub at_end : {P : Type 0} (fd : Fd) → (¬ (fd ≡ fd)) ⊎ P → P
at_end fd (inl other) = absurd (other refl)
at_end fd (inr p) = p

module _ (lossy : List Byte → Text) (Possible : Result (Unit {0}) Denial → Type 0) (c d : Fd) where
  refused_same :
      (v : Result (Unit {0}) Denial) (a b : Text)
      → is_ok v ≡ false
      → reply_line a v ≡ reply_line b v
  refused_same (ok u) a b e = cc
  refused_same (err denial) a b e = refl

  moved :
      (s t : Wired)
      → t.told ≡ s.told
      → Holds s t
      → WellTold lossy Possible s
      → WellTold lossy Possible t
  moved s t e h (inl nothing) = inl (e ∙ nothing)
  moved s t e (inl unshut) (inr (v, may, inl shut, p)) = absurd (cc (unshut, shut))
  moved s t e (inr (still, same)) (inr (v, may, inl shut, p)) =
      inr (v, may, inl still, rw (e, same) p)
  moved s t e h (inr (v, may, inr denied, p)) =
      inr (v, may, inr denied, rw (e, refused_same v (lossy t.asked) (lossy s.asked) denied) p)

  -- What the client guarantees.
  pub client_step :
      (s t : Wired)
      → t.told ≡ s.told
      → Holds s t
      → WellTold lossy Possible s
      → Guaranteed (wire_may c d) (views lossy Possible) 1 s t
  client_step s t e h v = (moved s t e h v, others)
    where
      others : (j : ℕ) → ¬ (1 ≡ j) → Later lossy Possible j s t
      others zero other = (e, h)
      others (suc zero) other = absurd (other refl)
      others (suc (suc j)) other = tt

  -- What the daemon guarantees.
  pub daemon_step :
      (s t : Wired)
      → t.asked ≡ s.asked
      → t.shut ≡ s.shut
      → WellTold lossy Possible t
      → Guaranteed (wire_may c d) (views lossy Possible) 0 s t
  daemon_step s t e h v = (v, others)
    where
      others : (j : ℕ) → ¬ (0 ≡ j) → Later lossy Possible j s t
      others zero other = absurd (other refl)
      others (suc zero) other = (e, h)
      others (suc (suc j)) other = tt
