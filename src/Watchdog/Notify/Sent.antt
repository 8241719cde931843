-- ===== src/Watchdog/Notify/Sent.antt =====
-- What a notification puts on the wire.
use uds_policy.Common.{
  ◌≡◌, refl, Bool, true, false, ◌||◌, err, List, [], ◌∷◌, Text, ◌==◌, if◌then◌else◌, arith,
}
use uds_policy.System.{
  Command, Answer, Event, Handler, run, unbound_datagram, abstract_address, send_to_abstract,
  send_to_path,
}
use uds_policy.Watchdog.Notify.{notify_to}

-- A datagram: its address, in the abstract namespace or the file system's, and its bytes.
pub data Datagram : Type 0 where
  to_name to_file : Text → Text → Datagram

abbrev pub sent : List Event → List Datagram
sent [] = []
sent (e ∷ t) = elim e.command [
  | send_to_abstract s a m ↦ to_name a m ∷ sent t
  | send_to_path s p m ↦ to_file p m ∷ sent t
  | _ ↦ sent t
]

abbrev is_obstacle : (c : Command) → Answer c → Bool
is_obstacle unbound_datagram (err e) = true
is_obstacle (abstract_address a) (err e) = true
is_obstacle _ _ = false

-- Whether no socket could be had, or no address could be made of the name.
abbrev pub obstructed : List Event → Bool
obstructed [] = false
obstructed (e ∷ t) = is_obstacle e.command e.answer || obstructed t

-- Where a message for this path belongs: nowhere for the empty path, to the abstract name behind a
-- leading `@`, and to the file otherwise.
abbrev pub addressed : Text → Text → List Datagram
addressed [] message = []
addressed (c ∷ path) message =
    if c == b'@' then to_name path message ∷ [] else to_file (c ∷ path) message ∷ []

module _ {S : Type 0} (h : Handler S) where
  -- `notify_to` sends one datagram, with the whole message, to where the path belongs; nothing for an
  -- empty path, or if it gets no socket or no address. It never fails, whatever the kernel answers.
  pub notify_to-sent :
      (path message : Text) (s : S)
      → let t = (run h (notify_to path message) s).trace in
        sent t ≡ (if obstructed t then [] else addressed path message)
  unfolding notify_to
  notify_to-sent [] message s = refl
  notify_to-sent (c ∷ path) message s = ground arith
