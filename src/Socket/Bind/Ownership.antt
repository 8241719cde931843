-- ===== src/Socket/Bind/Ownership.antt =====
-- What `bind` leaves behind when it fails.
use uds_policy.Common.{◌≡◌, false, Result, ok, err, is_ok, arith}
use uds_policy.System.{Handler, run}
use uds_policy.Socket.Config.{SocketConfig, BindError, io, Socket}
use uds_policy.Socket.Group.{give_socket_to_group}
use uds_policy.Socket.Bind.{bind}
use uds_policy.Socket.Notes.{notes, holding, touched}

-- The refusals that leave the path to whoever has it.
abbrev pub IsRefusal : BindError → Type 0
IsRefusal (io error) = ⊥
IsRefusal _ = Unit

abbrev pub ConfiguredAs : SocketConfig → Result Socket BindError → Type 0
ConfiguredAs config (ok socket) = socket.config ≡ config
ConfiguredAs config (err error) = Unit

module _ {S : Type 0} (h : Handler S) (config : SocketConfig) (s : S) where
  -- When `bind` returns, it has bound a listener that it has not asked to remove exactly if it
  -- returns a socket; and that socket has the configuration it was called with.
  pub bind_holds :
      (holding false (notes (run h (bind config) s).trace) ≡ is_ok (run h (bind config) s).result)
      × ConfiguredAs config (run h (bind config) s).result
  unfolding bind give_socket_to_group
  bind_holds = ground arith

  -- A refusal because the path is served, is no socket, or could not be verified, comes from a run
  -- that has neither bound nor removed anything.
  pub refused_bind_untouched :
      (error : BindError)
      → (run h (bind config) s).result ≡ err error
      → IsRefusal error
      → touched (notes (run h (bind config) s).trace) ≡ false
  unfolding bind give_socket_to_group
  refused_bind_untouched error e r = ground arith
