-- ===== src/Lib.antt =====
-- uds-policy: the half of a privileged Unix-socket daemon that has nothing to do with the wire it
-- speaks. The crate answers whose socket a path is, who is calling, whether they may, what
-- happened, and whether the daemon is busy or wedged.
--
-- How the parts fit together. A daemon binds its socket (src/socket.rs), accepts a connection and
-- learns from the kernel who is on it (src/caller.rs), asks an authorizer about a call that its
-- contract describes as data (src/call.rs, src/authorization.rs), and brackets the work with an
-- operation that writes audit lines (src/audit.rs). A heartbeat thread pets systemd's watchdog as
-- long as the record that the accept loop stamps says that the loop is alive (src/watchdog.rs).
--
-- Which file models which part:
--   System         the commands with which the code asks the kernel, NSS, the clock, stderr and the
--                  name cache; programs as trees of commands, and their runs against any handler.
--                  System/Threads interleaves programs on shared state, System/Threads/Rely is of
--                  threads that all keep what the others rely on, and System/Threads/Guarantee of
--                  threads that rely on different things; System/Only is of programs that make
--                  commands of one kind, System/Observe of programs whose commands may depend on
--                  what was seen before, System/Always of what a program returns whatever it is
--                  answered, System/Schedule plays one interleaving, System/Journal collects what
--                  was written, System/Sample answers commands in tests.
--   Call           src/call.rs: Call, Authorization, unprivileged, gated, action, Display.
--   Caller         src/caller.rs: Caller, of_socket and the accessors; Caller/Names is name_for_uid
--                  and its cache, Caller/Render is Display and account_name.
--   Authorization  src/authorization.rs: AllowSocketPeers, DenyAll, PeerGate and its constructors.
--   Audit          src/audit.rs: Operation::begin, finish and is_audited, describe, bound;
--                  Audit/Interleaved is of operations on several threads.
--   Socket         src/socket.rs: Socket/Config is SocketConfig and BindError, Socket/Reclaim is
--                  reclaim_stale_socket, Socket/Group is give_socket_to_group, Socket/Bind is bind
--                  and drop, Socket/Accept is accept and set_accept_timeout; Socket/Notes says what
--                  a run shows of its path, Socket/Bind/Unlinks which file it removes right after
--                  what, Socket/Bind/Race is of two daemons that bind it at once.
--   Watchdog       src/watchdog.rs: Watchdog/Liveness the ceilings, Watchdog/Activity the record
--                  behind its mutex, Watchdog/Heartbeat the interval and the loop, with its sleeps
--                  in Heartbeat/Thread, Watchdog/Notify the sd_notify client; Watchdog/Timeline
--                  lets the heartbeat's looks fall between the loop's stamps.
--   Gatekeeper     examples/gatekeeper.rs: Gatekeeper is answer and exchange, Gatekeeper/Serve is
--                  serve and nix_uid, with the loop alone and the loop with what follows it, which
--                  Gatekeeper/Serve/Looped relates; Gatekeeper/Serve/Lifecycle follows its path from bind to
--                  drop, Gatekeeper/Serve/Watched puts its loop under the heartbeat,
--                  Gatekeeper/Serve/Vetted follows whose requests it reads and
--                  Gatekeeper/Serve/Accounts what is counted and what is written,
--                  Gatekeeper/SelfTest is main's choice and the checks of self_test, with its
--                  client in SelfTest/Client, its two threads and their ends in SelfTest/Halves,
--                  and what passes between the threads in SelfTest/Wire and SelfTest/Reply, one
--                  after the other, and in SelfTest/Wire/Interleaved by turns;
--                  SelfTest/Wire/Answered is of the whole self-test on such a connection;
--                  SelfTest/Whole is main and self_test from their first command to what they
--                  return.
--   Exampled       src/lib.rs: the daemon of its documentation, for any protocol; Exampled/Loop and
--                  Exampled/Accepts are of how long it serves and what its accepts came to,
--                  Exampled/Lifecycle is of its path from bind to drop.
--   Integration    tests/socket.rs: Integration is the tests of the path and of the read deadline,
--                  Integration/Streams those that talk over a stream or read the mode,
--                  Integration/Fixture the daemon behind the audit test, its client, and what is
--                  asserted of both, and Integration/Process the child processes, with the tests
--                  that start one in Process/Children.
--   Common         the shared names; text as code points, decimal printing and parsing as in std,
--                  format!, and lines.
-- The module UnitTests below a part has the unit tests of its source file, under their names.
--
-- How code becomes definitions. A function that only computes is a function by clauses. One that
-- acts is a program: each system call, each call of nix, each eprintln! and each critical section
-- of the name cache is one command, and what a `?`, an `if let` or a `match` does with its answer
-- is a function by clauses over the answer. A theorem about a program ranges over every handler,
-- so over every answer that the surroundings may give and everything that others do between two
-- commands. Where the kernel's documented behaviour matters it is a record of laws
-- (Socket/Bind/Kernel, Socket/Accept/Deadline, Watchdog/Heartbeat/Pets,
-- Gatekeeper/Serve/Watched, and Client/Settles and
-- Wire of Gatekeeper/SelfTest) or, for several threads, a relation of what may be answered, which
-- the test modules instantiate. Operations of the activity record take the reading of the clock
-- that the code makes inside the lock. Durations and instants are nanoseconds; u32 and u64 values
-- are natural numbers with the range checks of std's parsing written out; a pid is a signed
-- integer. Besides the loops that wait, no definition needs fuel but the decimal print, which has
-- one round for each digit and is given more rounds than the number's value.
--
-- A loop that waits for others is given a number of rounds, at the end of which the process is
-- stopped. For the accept loop of the example as many turns as calls are left to serve are enough to
-- reach its limit, if every accept yields a connection; for the client of its self-test 1002 looks
-- are enough, since each sleep of 20 ms brings the deadline of 20 s closer. What only formats or
-- decodes and is std's own is a parameter where it is used: String::from_utf8_lossy, str::trim,
-- Path::to_str, a text's Debug form, and what a read that fails leaves in its string.
--
-- Not modelled: of src/lib.rs the re-exports and two build strings, and the protocol that the
-- documented daemon speaks, which is a parameter. A client that panics and what a panic unwinds,
-- opening a symlink's target, file permissions other than the socket's mode, and closing descriptors
-- but the one that the maker of a stale socket closes are left to the surroundings. A call of std is
-- one command even where it makes several system calls: UnixListener::bind is bind(2) and listen(2),
-- and that a connection is refused between the two does not show. TimeVal::microseconds of nix
-- panics for a value that it cannot hold; a run is one in which it returned.
pub mod Common
pub mod System
pub mod Call
pub mod Caller
pub mod Authorization
pub mod Audit
pub mod Socket
pub mod Watchdog
pub mod Gatekeeper
pub mod Integration
pub mod Exampled
