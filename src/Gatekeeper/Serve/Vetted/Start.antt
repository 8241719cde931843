-- ===== src/Gatekeeper/Serve/Vetted/Start.antt =====
-- `serve` of examples/gatekeeper.rs from its first command on: whose requests it reads.
use uds_policy.Common.{
  subst, sym, ℕ, Bool-cases, inl, inr, Option, none, Result, ok, err, List, [], ◌∷◌, Text, arith,
}
use uds_policy.System.{FilePath, Byte, Io, ◌>>=◌, Handler, run, run-bind}
use uds_policy.System.Only.{Only}
use uds_policy.System.Observe.{Obeys->>=, Kept, run-Follows, Follows-append}
use uds_policy.Socket.Config
use uds_policy.Socket.Config.{SocketConfig, BindError, Socket}
use uds_policy.Socket.Bind.{bind, drop}
use uds_policy.Socket.Reclaim.{reclaim_stale_socket}
use uds_policy.Socket.Group.{give_socket_to_group}
use uds_policy.Watchdog.Heartbeat.{heartbeat_interval}
use uds_policy.Watchdog.Notify.{notify_ready}
use uds_policy.Gatekeeper.{daemon}
use uds_policy.Caller.{of_socket}
use uds_policy.Authorization.{for_uids, peer_gate}
use uds_policy.Gatekeeper.Serve.Looped.{closed, looped-turns}
use uds_policy.Gatekeeper.Serve.{own, opened, armed, serve, serving, turns, goes_on, Turned, left}
use uds_policy.Gatekeeper.Serve.Vetted.{
  books, loop-Vets, IsBlind, after, Seen, Allowed, ReadsVetted, Vets, Done, blind,
}
use uds_policy.Gatekeeper.Serve.Bookkeeping.{
  IsBookkeeping, notify_ready-Books, heartbeat_interval-Books, armed-Books,
}

abbrev Blind : {A : Type 0} → Io A → Type 0
Blind = Only IsBlind

bind-Blind : (config : SocketConfig) → Blind (bind config)
unfolding bind reclaim_stale_socket give_socket_to_group
bind-Blind config = ground arith

own-Vets : (uids : List ℕ) (seen : Seen) → Vets uids Done seen own
unfolding own of_socket
own-Vets uids seen = (tt, λ r. ground arith)

module _ (lossy : List Byte → Text) (n : ℕ) (limit : Option ℕ) where
  closed-Vets :
      (uids : List ℕ) (socket : Socket) (l : Turned) (seen : Seen)
      → Vets uids Done seen (closed socket limit l)
  unfolding closed left drop
  closed-Vets uids socket l seen = elim (Bool-cases (goes_on limit l.served)) [
    | inl on ↦ rw on tt
    | inr over ↦ rw over (tt, λ r. tt)
  ]

  module _ (uid : ℕ) (socket : Socket) where
    -- What comes after a program that only keeps books.
    past :
        {A B : Type 0} (m : Io A) (f : A → Io B) (seen : Seen)
        → Only IsBookkeeping m
        → ((a : A) (t : Seen) → Vets (uid ∷ []) Done t (f a))
        → Vets (uid ∷ []) Done seen (m >>= f)
    past m f seen b next =
        Obeys->>= after (Allowed (uid ∷ [])) (Kept seen) Done m f seen (books (uid ∷ []) m seen b)
          (λ t a e. next a t)

    opened-Vets :
        (p : FilePath) (seen : Seen) → Vets (uid ∷ []) Done seen (opened lossy n p limit socket uid)
    unfolding opened
    opened-Vets p seen = (
      tt,
      λ created. past notify_ready _ seen notify_ready-Books (λ u t.
          past heartbeat_interval _ t heartbeat_interval-Books (λ interval t.
            past (armed socket interval) _ t (armed-Books socket interval) (λ a t. (
              tt,
              λ w. subst (Vets (uid ∷ []) Done t) (sym (looped-turns lossy _ socket limit n _)) (
                  Obeys->>= after (Allowed (uid ∷ [])) Done Done
                    (turns lossy (peer_gate (for_uids (uid ∷ []))) n socket limit _) _ t
                    (loop-Vets (uid ∷ []) lossy n socket limit _ t)
                    (λ t l d. closed-Vets (uid ∷ []) socket l t)),
            )))),
    )

  -- What the trace of `serve` holds after its bind.
  serving-ReadsVetted :
      {S : Type 0} (h : Handler S) (p : FilePath) (r : Result Socket BindError) (seen : Seen)
      (s : S)
      → ReadsVetted ((run h own s).result ∷ []) seen (run h (serving lossy n p limit r) s).trace
  unfolding serving
  serving-ReadsVetted h p (err error) seen s = tt
  serving-ReadsVetted h p (ok socket) seen s =
      let uid = (run h own s).result in
      rw (run-bind h own (opened lossy n p limit socket) s) (
        Follows-append after (Allowed (uid ∷ [])) seen (run h own s).trace _
          (run-Follows after (Allowed (uid ∷ [])) Done h own seen s (own-Vets (uid ∷ []) seen)).0
          (run-Follows after (Allowed (uid ∷ [])) Done h (opened lossy n p limit socket uid) _ _
            (opened-Vets uid socket p _)).0)

  -- Whatever the surroundings answer, `serve` reads a stream only after the kernel has reported for
  -- its peer the uid that it reported for this process, or 0 if it reported none, and nothing about
  -- another peer since.
  pub serve_vetted :
      {S : Type 0} (h : Handler S) (p : FilePath) (s : S)
      → let uid = (run h own (run h (bind (Config.new daemon p)) s).state).result in
        ReadsVetted (uid ∷ []) none (run h (serve lossy n p limit) s).trace
  unfolding serve
  serve_vetted h p s =
      let o = run h (bind (Config.new daemon p)) s in
      let uids = (run h own o.state).result ∷ [] in
      rw (run-bind h (bind (Config.new daemon p)) (serving lossy n p limit) s) (
        Follows-append after (Allowed uids) none o.trace _
          (run-Follows after (Allowed uids) (Kept none) h (bind (Config.new daemon p)) none s
            (blind uids _ none (bind-Blind (Config.new daemon p)))).0
          (serving-ReadsVetted h p o.result _ o.state))
