-- ===== src/Socket/Tests/Streams.antt =====
-- Descriptors with their receive timeouts; a stream inherits the listener's, as on Linux.
use mathlib.Core.Logic.{if_pos}
use native.Mathlib.Decide.{ℕ_discrete}
use uds_policy.Common.{
  ◌≡◌, refl, Option, none, some, Result, ok, codes, pos, ◌==◌, if◌then◌else◌, arith, ◌*◌,
}
use uds_policy.System.{
  Errno, Fd, Duration, Credentials, Handler, run, accept_stream, set_read_timeout, time_val,
  set_receive_timeout, peer_credentials,
}
use uds_policy.System.Sample.{sample}
use uds_policy.System.Threads.{update}
use uds_policy.Caller.{peer, of_credentials}
use uds_policy.Socket.Config.{Socket}
use uds_policy.Socket.Accept.{accept, set_accept_timeout}
use uds_policy.Socket.Accept.Deadline.{
  SocketKernel, accept_attributed, short_timeout_disarms, IsCallerOf,
}

abbrev pub Timeouts : Type 0
Timeouts = Fd → Option Duration

abbrev pub client : Credentials
client = record { pid = pos 4711; uid = 1000; gid = 1000 }

abbrev pub streams : Handler Timeouts
streams (accept_stream l) s = (ok 4, update s 4 (s l))
streams (peer_credentials fd) s = (ok client, s)
streams (set_read_timeout fd t) s = (ok tt, update s fd t)
streams (time_val u) s = (u, s)
streams (set_receive_timeout l u) s =
    (ok tt, update s l (if u == 0 then none else some (u * 1_000)))
streams c s = ((sample c 0).0, s)

pub update_self : (s : Timeouts) (fd : Fd) (t : Option Duration) → update s fd t fd ≡ t
update_self s fd t = rw (if_pos (ℕ_discrete fd fd) refl) refl

abbrev pub answered : Credentials → Result Credentials Errno
answered c = ok c

pub known : (c : Credentials) → answered client ≡ ok c → c ≡ client
known c e = cc e

abbrev pub kernel : SocketKernel streams
kernel = record {
  deadline = λ s fd. s fd;
  waiting = λ s l. client;
  peer_of = λ s fd. client;
  accepted_waiting = λ l fd s e. refl;
  credentials_known = λ fd s c e. known c e;
  timeout_set = λ fd t s e. update_self s fd t;
  time_val_exact = λ u s. refl;
  receive_timeout_set = λ l u s e. update_self s l _;
}

abbrev pub socket : Socket
socket = record {
  listener = 3;
  config = record {
    daemon = codes "testd";
    socket_path = codes "/run/s";
    socket_mode = 0o660;
    socket_group = none;
    request_read_timeout = some 7_000_000_000;
  };
}

-- The listener's own timeout is two seconds.
abbrev pub two_seconds : Timeouts
two_seconds fd = some 2_000_000_000

accept_attributed_example :
    ((run streams (accept socket) two_seconds).state 4 ≡ some 7_000_000_000)
    × IsCallerOf client (peer (pos 4711) 1000 1000)
unfolding accept of_credentials
accept_attributed_example =
    accept_attributed streams kernel socket two_seconds 4 (peer (pos 4711) 1000 1000) refl

short_timeout_disarms_example :
    let o = run streams (set_accept_timeout socket 500) two_seconds in
    (o.result ≡ ok tt) × (o.state 3 ≡ none)
unfolding set_accept_timeout
short_timeout_disarms_example =
    short_timeout_disarms streams socket kernel 500 two_seconds (omega arith) refl
