-- ===== src/Gatekeeper/Serve/Lifecycle.antt =====
-- `serve` of examples/gatekeeper.rs from its bind to its drop, on a file system.
use uds_policy.Common.{
  subst, sym, ℕ, ◌≡◌, refl, ◌∙◌, true, false, Bool-cases, inl, inr, Option, Result, ok, err, List,
  Text, if◌then◌else◌,
}
use uds_policy.System.{
  FilePath, Byte, IoError, Command, Answer, Io, ret, exec, ◌>>=◌, Handler, run, run-bind,
  remove_file, now, eprintln,
}
use uds_policy.System.Only.{Only}
use uds_policy.Socket.Config
use uds_policy.Socket.Config.{SocketConfig, BindError, io, already_active, not_a_socket, Socket}
use uds_policy.Socket.Bind.{bind, drop}
use uds_policy.Socket.Bind.Kernel.{
  Node, absent, other_file, dead_socket, symlink, live_socket, PathKernel, Promise,
}
use uds_policy.Socket.Bind.Kernel.Refines.{bind_refines}
use uds_policy.Gatekeeper.{daemon}
use uds_policy.Watchdog.Heartbeat.{heartbeat_interval}
use uds_policy.Watchdog.Notify.{notify_ready}
use uds_policy.Gatekeeper.Serve.Looped.{closed, looped-turns}
use uds_policy.Gatekeeper.Serve.{own, armed, Turned, serve, serving, turns, goes_on, left}
use uds_policy.Gatekeeper.Serve.Elsewhere.{
  IsElsewhere, turns-Quiet, own-Quiet, notify_ready-Quiet, heartbeat_interval-Quiet, armed-Quiet,
}

-- The file system, for a process that works on one path, and what it does elsewhere.
pub record ServeKernel {S : Type 0} (h : Handler S) (p : FilePath) : Type 1 where
  pub path : PathKernel h p
  pub unlink_lem :
      (m : ℕ) (s : S) → path.node s ≡ live_socket m → path.node (h (remove_file p) s).1 ≡ absent
  pub elsewhere_lem : (c : Command) (s : S) → IsElsewhere c → path.node (h c s).1 ≡ path.node s

-- What `serve` promises for each kind of node: the error of `bind`, or a daemon that still serves
-- with a socket of mode 0660, or has served its limit and left nothing behind.
abbrev pub Serves : Option ℕ → Result Turned BindError → Node → Type 0
Serves limit r n =
    (l : Turned) × (r ≡ ok l) × (n ≡ (if goes_on limit l.served then live_socket 0o660 else absent))

abbrev pub ServePromise : FilePath → Option ℕ → Node → Result Turned BindError → Node → Type 0
ServePromise p limit absent r n = Serves limit r n
ServePromise p limit dead_socket r n = Serves limit r n
ServePromise p limit (live_socket m) r n = (r ≡ err (already_active p)) × (n ≡ live_socket m)
ServePromise p limit other_file r n = (r ≡ err (not_a_socket p)) × (n ≡ other_file)
ServePromise p limit (symlink true) r n = (r ≡ err (not_a_socket p)) × (n ≡ symlink true)
ServePromise p limit (symlink false) r n = (e : IoError) × (r ≡ err (io e)) × (n ≡ symlink false)

module _ {S : Type 0} (h : Handler S) (p : FilePath) (k : ServeKernel h p) where
  open k use {path}

  pub record Ends {B : Type 0} (P : B → S → Type 0) (m : Io B) (s : S) : Type 0 where
    pub holds : P (run h m s).result (run h m s).state

  -- What holds after the rest holds after a program that leaves the path.
  pub past_quiet :
      {A B : Type 0} (old : Node) (P : B → S → Type 0) (m : Io A) (f : A → Io B) (s : S)
      → Only IsElsewhere m
      → path.node s ≡ old
      → ((a : A) (t : S) → path.node t ≡ old → Ends P (f a) t)
      → Ends P (m >>= f) s
  past_quiet old P (ret a) f s q e next = next a s e
  past_quiet old P (exec c g) f s q e next = record {
    holds =
        (past_quiet old P (g (h c s).0) f (h c s).1 (q.1 (h c s).0) (k.elsewhere_lem c s q.0 ∙ e)
          next).holds;
  }

  pub past_ask :
      {B : Type 0} (old : Node) (P : B → S → Type 0) (c : Command) (g : Answer c → Io B) (s : S)
      → IsElsewhere c
      → path.node s ≡ old
      → ((a : Answer c) (t : S) → path.node t ≡ old → Ends P (g a) t)
      → Ends P (exec c g) s
  past_ask old P c g s q e next = record {
    holds = (next (h c s).0 (h c s).1 (k.elsewhere_lem c s q ∙ e)).holds;
  }

module _ (lossy : List Byte → Text) {S : Type 0} (h : Handler S) (p : FilePath)
    (k : ServeKernel h p) where
  open k use {path}

  closed-Serves :
      (socket : Socket) (limit : Option ℕ) (l : Turned) (s : S)
      → socket.config.socket_path ≡ p
      → path.node s ≡ live_socket 0o660
      → let o = run h (closed socket limit l) s in Serves limit o.result (path.node o.state)
  unfolding closed left drop
  closed-Serves socket limit l s here e = elim (Bool-cases (goes_on limit l.served)) [
    | inl on ↦ rw on (l, refl, rw on e)
    | inr over ↦ rw over (rw here (l, refl, rw over (k.unlink_lem 0o660 s e)))
  ]

  serving-Serves :
      (n : ℕ) (limit : Option ℕ) (socket : Socket) (s : S)
      → socket.config.socket_path ≡ p
      → path.node s ≡ live_socket 0o660
      → let o = run h (serving lossy n p limit (ok socket)) s in
        Serves limit o.result (path.node o.state)
  unfolding serving
  serving-Serves n limit socket s here e =
      let node = live_socket 0o660 in
      let P : Result Turned BindError → S → Type 0 = λ r t. Serves limit r (path.node t) in
      let served : Ends h p k P (serving lossy n p limit (ok socket)) s =
        past_quiet h p k node P own _ s own-Quiet e (λ uid s1 e1.
          past_ask h p k node P now _ s1 tt e1 (λ created s2 e2.
            past_quiet h p k node P notify_ready _ s2 notify_ready-Quiet e2 (λ u s3 e3.
              past_quiet h p k node P heartbeat_interval _ s3 heartbeat_interval-Quiet e3
                (λ interval s4 e4.
                  past_quiet h p k node P (armed socket interval) _ s4 (armed-Quiet socket interval)
                    e4
                    (λ liveness s5 e5. past_ask h p k node P (eprintln _) _ s5 tt e5 (λ u s6 e6.
                      subst (λ m. Ends h p k P m s6) (sym (looped-turns lossy _ socket limit n _))
                        (past_quiet h p k node P (turns lossy _ n socket limit _) _ s6
                          (turns-Quiet lossy _ socket n limit _) e6
                          (λ l s7 e7. record {
                            holds = closed-Serves socket limit l s7 here e7;
                          })))))))) in
      served.holds

  abbrev config : SocketConfig
  config = Config.new daemon p

  -- `bind`'s promise goes on to that of `serve`.
  serving-ServePromise :
      (n : ℕ) (limit : Option ℕ) (old : Node) (r : Result Socket BindError) (s : S)
      → Promise config old r (path.node s)
      → let o = run h (serving lossy n p limit r) s in
        ServePromise p limit old o.result (path.node o.state)
  unfolding Config.new
  serving-ServePromise n limit absent r s (fd, e, made) =
      rw e (serving-Serves n limit _ s refl made)
  serving-ServePromise n limit dead_socket r s (fd, e, made) =
      rw e (serving-Serves n limit _ s refl made)
  serving-ServePromise n limit (live_socket m) r s (e, kept) = rw e (unfold serving in (refl, kept))
  serving-ServePromise n limit other_file r s (e, kept) = rw e (unfold serving in (refl, kept))
  serving-ServePromise n limit (symlink true) r s (e, kept) = rw e (unfold serving in (refl, kept))
  serving-ServePromise n limit (symlink false) r s (x, e, kept) =
      rw e (unfold serving in (x, refl, kept))

  -- On a kernel that behaves as documented, `serve` on a free path, or on a socket that nothing
  -- listens on, either still serves it, with a socket of mode 0660, or has served its limit and left
  -- nothing at the path; a served socket, a file of another kind and a symbolic link stay as they
  -- are, and the error says which it was.
  pub serve_refines :
      (n : ℕ) (limit : Option ℕ) (s : S)
      → let o = run h (serve lossy n p limit) s in
        ServePromise p limit (path.node s) o.result (path.node o.state)
  unfolding serve Config.new
  serve_refines n limit s =
      rw (run-bind h (bind config) (serving lossy n p limit) s)
        (serving-ServePromise n limit (path.node s) _ _ (bind_refines h config path s))
