-- ===== src/Watchdog/UnitTests/Datagrams.antt =====
-- The unit tests of src/watchdog.rs that send datagrams, and that they pass on every kernel: the first
-- up to the datagram that its receiver is sent.
use uds_policy.Common.{◌≡◌, refl, false, [], ◌∷◌, codes, arith}
use uds_policy.System.{FilePath, Io, ◌>>◌, Handler, run}
use uds_policy.System.Journal.{printed}
use uds_policy.Watchdog.Notify.{notify_to}
use uds_policy.Watchdog.Notify.Sent.{to_file, sent, obstructed, notify_to-sent}

delivers_message_to_a_path_socket : FilePath → Io (Unit {0})
delivers_message_to_a_path_socket path_str = notify_to path_str (codes "READY=1")

empty_and_missing_socket_paths_are_silent_noops : Io (Unit {0})
empty_and_missing_socket_paths_are_silent_noops = do
  notify_to [] (codes "WATCHDOG=1")
  notify_to (codes "/nonexistent/uds-policy/notify.sock") (codes "WATCHDOG=1")

module _ {S : Type 0} (h : Handler S) (s : S) where
  delivers_passes :
      (path : FilePath)
      → let t = (run h (delivers_message_to_a_path_socket (b'/' ∷ path)) s).trace in
        obstructed t ≡ false → sent t ≡ to_file (b'/' ∷ path) (codes "READY=1") ∷ []
  unfolding delivers_message_to_a_path_socket
  delivers_passes path e = rw (notify_to-sent h (b'/' ∷ path) (codes "READY=1") s, e) refl

  silent_passes : printed (run h empty_and_missing_socket_paths_are_silent_noops s).trace ≡ []
  unfolding empty_and_missing_socket_paths_are_silent_noops notify_to
  silent_passes = ground arith
