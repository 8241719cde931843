-- ===== src/Gatekeeper/SelfTest/Wire/Memory.antt =====
-- A connection in memory, that meets what `wire_may` allows.
use uds_policy.Common.{◌≡◌, refl, Bool, true, false, inr, ok, err, Result, List, ◌++◌, Text, codes}
use uds_policy.System.{
  Byte, IoError, Command, Answer, Handler, write_all, shutdown_write, read_to_end, write_line,
  read_to_string, accept_stream, connect_stream,
}
use uds_policy.System.Sample.{sample, denied}
use uds_policy.System.Schedule.{follows}
use uds_policy.Gatekeeper.SelfTest.Wire.Shared.{Wired, Sent, Heard, wire_may}

abbrev pub sent : List Byte → Wired → Bool → Result (Unit {0}) IoError × Wired
sent bytes w true = (err denied, w)
sent bytes w false = (ok tt, record w { asked = w.asked ++ bytes })

abbrev pub got : Wired → Bool → Result (List Byte) IoError
got w true = ok w.asked
got w false = err denied

abbrev pub on_wire : Handler Wired
on_wire (write_all fd bytes) w = sent bytes w w.shut
on_wire (shutdown_write fd) w = (ok tt, record w { shut = true })
on_wire (read_to_end fd) w = (got w w.shut, w)
on_wire (write_line fd line) w = (ok tt, record w { told = w.told ++ (line ++ codes "\n") })
on_wire (read_to_string fd) w = (ok w.told, w)
on_wire k w = ((sample k 0).0, w)

sent-Sent :
    (bytes : List Byte) (w : Wired) (b : Bool)
    → w.shut ≡ b
    → Sent bytes w (sent bytes w b).0 (sent bytes w b).1
sent-Sent bytes w true e = (refl, inr (e, refl))
sent-Sent bytes w false e = (e, refl)

got-Heard : (w : Wired) (b : Bool) → w.shut ≡ b → Heard w (got w b)
got-Heard w true e = (e, refl)
got-Heard w false e = tt

pub on_wire-may :
    (k : Command) (s : Wired) (r : Answer k) (t : Wired)
    → follows on_wire k s r t
    → wire_may 8 4 k s r t
on_wire-may (write_all fd bytes) s r t m = inr (rw (m.0, m.1) (sent-Sent bytes s s.shut refl))
on_wire-may (shutdown_write fd) s r t m = inr (rw (m.0, m.1) refl)
on_wire-may (read_to_end fd) s r t m = inr (m.1, rw m.0 (got-Heard s s.shut refl))
on_wire-may (write_line fd line) s r t m = inr (rw (m.0, m.1) refl)
on_wire-may (read_to_string fd) s r t m = inr (m.1, rw m.0 refl)
on_wire-may (accept_stream l) s r t m = (m.1, rw m.0 refl)
on_wire-may (connect_stream p) s r t m = (m.1, rw m.0 refl)
on_wire-may _ s r t m = m.1

abbrev pub ascii : List Byte → Text
ascii bytes = bytes

abbrev pub reply : Text
reply = codes "Thing.Change said: hello\n"
