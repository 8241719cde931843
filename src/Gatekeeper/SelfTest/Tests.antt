-- ===== src/Gatekeeper/SelfTest/Tests.antt =====
-- The self-test of examples/gatekeeper.rs: its client on the sample host, its request on a wire in
-- memory, its place and its verdict.
use uds_policy.Common.{
  ◌+◌, ◌≡◌, refl, pos, true, none, some, Result, ok, err, List, [], ◌∷◌, ◌++◌, Text, codes, decimal,
  arith, contains_text,
}
use uds_policy.System.{
  Byte, Command, IoError, Handler, run, from_secs, write_all, read_to_end, read_to_string,
  write_line,
}
use uds_policy.System.Sample.{sample}
use uds_policy.Call
use uds_policy.Caller.{Caller, peer}
use uds_policy.Caller.Names.{name_for_uid}
use uds_policy.Caller.Render
use uds_policy.Authorization.{Authorizer, for_uids, peer_gate, authorize, contains}
use uds_policy.Audit.{begin, finish, describe}
use uds_policy.Gatekeeper.{change, answer, answered, exchange}
use uds_policy.Gatekeeper.Serve.Bookkeeping.{IsNoting}
use uds_policy.Gatekeeper.SelfTest.Client.{client, greeted}
use uds_policy.Gatekeeper.SelfTest.Client.Settles.{Clock, Ended, client_settles}
use uds_policy.Gatekeeper.SelfTest.Halves.{Place, said_why, join, prepared}
use uds_policy.Gatekeeper.SelfTest.Wire.{Wire}
use uds_policy.Gatekeeper.SelfTest.Reply.{reply_line, hello_answered}

-- The sample clock goes 5 ms forward at each reading, and as far as it is slept.
abbrev clock : Clock sample
clock = record {
  time = λ s. s;
  clock_read = λ s. refl;
  now_after = λ s. omega arith;
  exists_after = λ p s. omega arith;
  slept = λ d s. omega arith;
}

client_settles_example :
    Ended sample clock
      (codes "/run/s")
      (7 + from_secs 20)
      (run sample (client 1002 (codes "/run/s")) 7)
client_settles_example = client_settles sample clock (codes "/run/s") 1002 7 (omega arith)

-- What was sent, and what was written back.
abbrev on_wire : Handler (List Byte × Text)
on_wire (write_all fd bytes) (asked, told) = (ok tt, (asked ++ bytes, told))
on_wire (read_to_end fd) (asked, told) = (ok asked, (asked, told))
on_wire (write_line fd line) (asked, told) = (ok tt, (asked, told ++ (line ++ codes "\n")))
on_wire (read_to_string fd) (asked, told) = (ok told, (asked, told))
on_wire k s = ((sample k 0).0, s)

noting_kept : (k : Command) (s : List Byte × Text) → IsNoting k → (on_wire k s).1 ≡ s
noting_kept (write_all fd bytes) s q = absurd q
noting_kept (read_to_end fd) s q = absurd q
noting_kept (write_line fd line) s q = absurd q
noting_kept (read_to_string fd) s q = absurd q
noting_kept _ s q = refl

abbrev given : {A : Type 0} → A → Result A IoError
given a = ok a

as_given : {A : Type 0} (a b : A) → given a ≡ ok b → b ≡ a
as_given a b e = cc

abbrev wire : Wire on_wire 8 4
wire = record {
  asked = λ s. s.0;
  told = λ s. s.1;
  timed_lem = λ t s. (refl, refl);
  sent_lem = λ bytes s e. (refl, refl);
  shut_lem = λ s. (refl, refl);
  heard_lem = λ bytes s e. (as_given s.0 bytes e, refl);
  written_lem = λ line s e. refl;
  read_lem = λ text s e. as_given s.1 text e;
  noting_lem = λ k s q. rw (noting_kept k s q) (refl, refl);
}

abbrev ascii : List Byte → Text
ascii bytes = bytes

abbrev you : Caller
you = peer (pos 7) 1000 1000

abbrev gate : Authorizer
gate = peer_gate (for_uids (1000 ∷ []))

hello_answered_example :
    codes "Thing.Change said: hello\n"
    ≡ reply_line (codes "hello") (gate.authorize change you) ++ codes "\n"
unfolding for_uids authorize contains greeted exchange begin finish Render.display name_for_uid
    Call.display answer peer_gate answered Call.gated describe
hello_answered_example =
    hello_answered on_wire 8 4 wire ascii you gate ([], []) (codes "Thing.Change said: hello\n")
      refl refl refl refl
      (tt, (tt, (tt, (tt, (tt, (refl, (refl, (tt, (tt, (tt, (tt, (tt, (tt, tt))))))))))))) refl

-- It is the reply that the self-test looks for.
hello_recognised :
    contains_text (reply_line (codes "hello") (ok tt) ++ codes "\n") (codes "said: hello") ≡ true
unfolding Call.display Call.gated contains_text
hello_recognised = refl

abbrev place : Place
place = record {
  dir = codes "/tmp/uds-policy-self-test-42";
  socket_path = codes "/tmp/uds-policy-self-test-42/gatekeeper.sock";
  path_string = codes "/tmp/uds-policy-self-test-42/gatekeeper.sock";
}

prepared_lem :
    ((run sample (prepared (λ path. some path)) 0).result ≡ ok place)
    × ((run sample (prepared (λ path. none)) 0).result
        ≡ err (said_why (codes "non-utf8 temporary directory")))
unfolding prepared decimal
prepared_lem = (refl, refl)

join_lem :
    (join (codes "/") (codes "tmp") ≡ codes "/tmp")
    × (join (codes "/tmp") (codes "x") ≡ codes "/tmp/x")
    × (join [] (codes "x") ≡ codes "x")
unfolding join
join_lem = (refl, refl, refl)
