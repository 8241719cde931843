-- ===== src/Socket/Bind/Kernel/Refines.antt =====
-- `bind` keeps what `Promise` says, step by step from its last command to its first.
use uds_policy.Common.{
  ◌≡◌, refl, ap, ◌∙◌, Bool, true, false, Option, none, some, Result, ok, err, Text, arith,
}
use uds_policy.System.{
  Fd, IoError, Handler, run, exists, symlink_is_socket, connect, bind_listener, set_permissions,
  run-bind,
}
use uds_policy.Socket.Config.{SocketConfig, BindError, already_active, not_a_socket, io}
use uds_policy.Socket.Group.{give_socket_to_group}
use uds_policy.Socket.Reclaim.{reclaim_stale_socket}
use uds_policy.Socket.Bind.{bind, offer, cleared, found, listening, permitted}
use uds_policy.Socket.Bind.Kernel.{
  Node, absent, other_file, dead_socket, symlink, live_socket, there, IsProbe, IsBound, PathKernel,
  Promise,
}

module _ {S : Type 0} (h : Handler S) (config : SocketConfig)
    (k : PathKernel h config.socket_path) where
  open k use {node}

  give-node :
      (group daemon : Text) (s : S)
      → node (run h (give_socket_to_group config.socket_path group daemon) s).state ≡ node s
  unfolding give_socket_to_group
  give-node group daemon s = grind (arith, k.chown_lem, k.group_lem, k.eprintln_lem)

  offer-node : (g : Option Text) (s : S) → node (run h (offer config g) s).state ≡ node s
  unfolding offer
  offer-node none s = refl
  offer-node (some g) s = give-node g config.daemon s

  permitted-ok :
      (fd : Fd) (s : S)
      → let o = run h (permitted config fd (ok tt)) s in
        (o.result ≡ ok (record { listener = fd; config = config })) × (node o.state ≡ node s)
  unfolding permitted
  permitted-ok fd s = (rw run-bind refl, rw run-bind (offer-node config.socket_group s))

  cleared-fresh :
      (s : S)
      → node s ≡ absent
      → let o = run h (cleared config (ok tt)) s in Promise config absent o.result (node o.state)
  unfolding cleared listening
  cleared-fresh s e =
      let b : IsBound absent (h (bind_listener config.socket_path) s).0
          (node (h (bind_listener config.socket_path) s).1) =
        rw e at (k.bind_lem s) in
      let (fd, m, r, n) = b in
      let t = (h (bind_listener config.socket_path) s).1 in
      let (okay, made) = k.chmod_lem config.socket_mode m t n in
      let (result, kept) =
        permitted-ok fd (h (set_permissions config.socket_path config.socket_mode) t).1 in
      rw (r, run) (rw (okay, run) (fd, result, kept ∙ made))

  cleared-taken :
      (s : S) (target : Bool)
      → node s ≡ symlink target
      → let o = run h (cleared config (ok tt)) s in
        (e : IoError) × (o.result ≡ err (io e)) × (node o.state ≡ symlink target)
  unfolding cleared listening
  cleared-taken s target e =
      let b : IsBound (symlink target) (h (bind_listener config.socket_path) s).0
          (node (h (bind_listener config.socket_path) s).1) =
        rw e at (k.bind_lem s) in
      let (x, r, n) = b in rw (r, run) (x, refl, n)

  refusal :
      (s : S) → node s ≡ dead_socket → IsProbe dead_socket (h (connect config.socket_path) s).0
  refusal s e = rw e at (k.connect_lem s).0

  -- where the socket is reclaimed, or is not
  Reclaimed : Node → Result (Unit {0}) BindError → Node → Type 0
  Reclaimed dead_socket r n = (r ≡ ok tt) × (n ≡ absent)
  Reclaimed (live_socket m) r n =
      (r ≡ err (already_active config.socket_path)) × (n ≡ live_socket m)
  Reclaimed absent r n = ⊥
  Reclaimed (symlink false) r n = ⊥
  Reclaimed old r n = (r ≡ err (not_a_socket config.socket_path)) × (n ≡ old)

  reclaim-Reclaimed :
      (s : S) (old : Node)
      → node s ≡ old
      → there old ≡ true
      → let o = run h (reclaim_stale_socket config.socket_path) s in
        Reclaimed old o.result (node o.state)
  unfolding reclaim_stale_socket Reclaimed
  reclaim-Reclaimed s absent e t = absurd (cc t)
  reclaim-Reclaimed s other_file e t =
      let stat : (h (symlink_is_socket config.socket_path) s).0 ≡ ok false =
        rw e at (k.stat_lem s).0 in
      let same : node (h (symlink_is_socket config.socket_path) s).1 ≡ other_file =
        (k.stat_lem s).1 ∙ e in
      rw (stat, run) (refl, same)
  reclaim-Reclaimed s (symlink false) e t = absurd (cc t)
  reclaim-Reclaimed s (symlink true) e t =
      let stat : (h (symlink_is_socket config.socket_path) s).0 ≡ ok false =
        rw e at (k.stat_lem s).0 in
      let same : node (h (symlink_is_socket config.socket_path) s).1 ≡ symlink true =
        (k.stat_lem s).1 ∙ e in
      rw (stat, run) (refl, same)
  reclaim-Reclaimed s (live_socket m) e t =
      let s1 = (h (symlink_is_socket config.socket_path) s).1 in
      let stat : (h (symlink_is_socket config.socket_path) s).0 ≡ ok true =
        rw e at (k.stat_lem s).0 in
      let same : node s1 ≡ live_socket m = (k.stat_lem s).1 ∙ e in
      let probe : (h (connect config.socket_path) s1).0 ≡ ok tt = rw same at (k.connect_lem s1).0 in
      rw (stat, run) (rw (probe, run) (refl, (k.connect_lem s1).1 ∙ same))
  reclaim-Reclaimed s dead_socket e t =
      let s1 = (h (symlink_is_socket config.socket_path) s).1 in
      let s2 = (h (connect config.socket_path) s1).1 in
      let stat : (h (symlink_is_socket config.socket_path) s).0 ≡ ok true =
        rw e at (k.stat_lem s).0 in
      let same : node s1 ≡ dead_socket = (k.stat_lem s).1 ∙ e in
      let (x, probe, kind) = refusal s1 same in
      let (gone, free) = k.remove_lem s2 ((k.connect_lem s1).1 ∙ same) in ground arith

  cleared-Promise :
      (old : Node) (r : Result (Unit {0}) BindError) (s : S)
      → Reclaimed old r (node s)
      → let o = run h (cleared config r) s in Promise config old o.result (node o.state)
  unfolding Reclaimed
  cleared-Promise absent r s c = absurd c
  cleared-Promise (symlink false) r s c = absurd c
  cleared-Promise dead_socket r s c = rw c.0 (cleared-fresh s c.1)
  cleared-Promise (live_socket m) r s c = rw c.0 (unfold cleared in (refl, c.1))
  cleared-Promise other_file r s c = rw c.0 (unfold cleared in (refl, c.1))
  cleared-Promise (symlink true) r s c = rw c.0 (unfold cleared in (refl, c.1))

  found-Promise :
      (s : S) (old : Node)
      → node s ≡ old
      → there old ≡ true
      → let o = run h (found config true) s in Promise config old o.result (node o.state)
  unfolding found
  found-Promise s old e t =
      rw (run-bind h (reclaim_stale_socket config.socket_path) (cleared config) s)
        (cleared-Promise old _ _ (reclaim-Reclaimed s old e t))

  bind-Promise :
      (s : S) (old : Node)
      → node s ≡ old
      → let o = run h (bind config) s in Promise config old o.result (node o.state)
  unfolding bind
  bind-Promise s old e =
      let (there_now, same) = k.exists_lem s in entered old (there_now ∙ ap there e) (same ∙ e)
    where
      entered :
          (old : Node)
          → (h (exists config.socket_path) s).0 ≡ there old
          → node (h (exists config.socket_path) s).1 ≡ old
          → let o = run h (bind config) s in Promise config old o.result (node o.state)
      entered absent t n = rw (t, run) (cleared-fresh _ n)
      entered (symlink false) t n = rw (t, run) (cleared-taken _ false n)
      entered (symlink true) t n = rw (t, run) (found-Promise _ (symlink true) n refl)
      entered other_file t n = rw (t, run) (found-Promise _ other_file n refl)
      entered dead_socket t n = rw (t, run) (found-Promise _ dead_socket n refl)
      entered (live_socket m) t n = rw (t, run) (found-Promise _ (live_socket m) n refl)

  -- `bind` keeps its promise for every kind of node: a free path and a socket that nothing listens
  -- on become a listener of the caller's with the configured mode; a served socket, a file of
  -- another kind and a symbolic link stay what they are, and the error says which it was.
  pub bind_refines :
      (s : S) → let o = run h (bind config) s in Promise config (node s) o.result (node o.state)
  bind_refines s = bind-Promise s (node s) refl
