-- ===== src/System.antt =====
-- What the crate asks of its surroundings: the kernel, NSS and systemd's variables (reached through
-- `std` and `nix`), the clock, the process's stderr, and the name cache behind its mutex.
-- None of it is defined here: a command is a question, and whoever runs a program answers it.
pub mod Threads
pub mod Only
pub mod Observe
pub mod Schedule
pub mod Always
pub mod Journal
pub mod Sample
use uds_policy.Common.{
  ℕ, ℤ, ◌*◌, ◌≡◌, refl, ap, Bool, Option, List, [], ◌∷◌, ◌++◌, Result, ok, err, Text,
}

abbrev pub FilePath : Type 0
FilePath = Text

-- `std::time::Duration` and `Instant`, in nanoseconds (an `Instant` since an arbitrary origin).
abbrev pub Duration : Type 0
Duration = ℕ

abbrev pub Instant : Type 0
Instant = ℕ

abbrev pub from_secs : ℕ → Duration
from_secs s = s * 1_000_000_000

abbrev pub from_millis : ℕ → Duration
from_millis m = m * 1_000_000

abbrev pub from_micros : ℕ → Duration
from_micros u = u * 1_000

-- The kinds of `std::io::ErrorKind` that the code tells apart, and the rest.
pub data ErrorKind : Type 0 where
  connection_refused not_found would_block timed_out : ErrorKind
  other_kind : ℕ → ErrorKind

pub record IoError : Type 0 where
  pub kind : ErrorKind
  pub message : Text

-- What the code uses of a `nix` errno: its text, and the `io::Error` it converts to.
pub record Errno : Type 0 where
  pub text : Text
  pub as_io : IoError

pub record Credentials : Type 0 where
  pub pid : ℤ
  pub uid : ℕ
  pub gid : ℕ

abbrev pub Byte : Type 0
Byte = ℕ

-- A listener, a stream or a datagram socket, by its descriptor.
abbrev pub Fd : Type 0
Fd = ℕ

pub data Command : Type 0 where
  -- `Path::exists`, `fs::symlink_metadata` (asked for `is_socket`), `UnixStream::connect`
  exists symlink_is_socket connect remove_file bind_listener : FilePath → Command
  set_permissions chown_group : FilePath → ℕ → Command
  accept_stream : Fd → Command
  set_read_timeout : Fd → Option Duration → Command
  -- `nix`: `TimeVal::microseconds`, which panics for what it cannot hold, so that a run is one in
  -- which it returned; `setsockopt(ReceiveTimeout)`, `getsockopt(PeerCredentials)`, `Group::from_name`,
  -- `User::from_uid`
  time_val : ℕ → Command
  set_receive_timeout : Fd → ℕ → Command
  peer_credentials : Fd → Command
  group_from_name : Text → Command
  user_from_uid : ℕ → Command
  -- the name cache, each command one critical section
  cache_get : ℕ → Command
  cache_insert : ℕ → Option Text → Command
  -- `Instant::now`, `std::process::id`, `eprintln!`
  now process_id : Command
  eprintln : Text → Command
  -- `sd_notify`
  env_var : Text → Command
  unbound_datagram : Command
  abstract_address : Text → Command
  send_to_abstract send_to_path : Fd → Text → Text → Command
  -- the streams of a daemon: `UnixStream::pair`, `read_to_end`, and `writeln!` as one command for
  -- all of its writes
  socket_pair : Command
  read_to_end : Fd → Command
  write_line : Fd → Text → Command
  -- those of a client: `UnixStream::connect` whose stream is kept, `write_all`, `shutdown` of the
  -- writing half, `read_to_string`; and `thread::sleep`, `env::temp_dir` and the directory calls
  connect_stream : FilePath → Command
  write_all : Fd → List Byte → Command
  shutdown_write read_to_string : Fd → Command
  sleep : Duration → Command
  temp_dir : Command
  create_dir_all remove_dir_all : FilePath → Command
  -- `fs::metadata`, asked for its mode
  file_mode : FilePath → Command
  -- the child processes of a test: the program, its arguments and one variable, with no stdout and
  -- with a pipe for stderr; `SystemTime::now` in nanoseconds since the epoch, and a listener closed
  current_exe since_epoch : Command
  spawn : FilePath → List Text → Text → FilePath → Command
  kill_child wait_child take_stderr : ℕ → Command
  close : Fd → Command

abbrev pub Answer : Command → Type 0
Answer (exists p) = Bool
Answer (symlink_is_socket p) = Result Bool IoError
Answer (connect p) = Result (Unit {0}) IoError
Answer (remove_file p) = Result (Unit {0}) IoError
Answer (bind_listener p) = Result Fd IoError
Answer (set_permissions p m) = Result (Unit {0}) IoError
Answer (chown_group p g) = Result (Unit {0}) IoError
Answer (accept_stream l) = Result Fd IoError
Answer (set_read_timeout s t) = Result (Unit {0}) IoError
Answer (time_val u) = ℕ
Answer (set_receive_timeout l u) = Result (Unit {0}) Errno
Answer (peer_credentials s) = Result Credentials Errno
Answer (group_from_name g) = Result (Option ℕ) Errno
Answer (user_from_uid u) = Result (Option Text) Errno
Answer (cache_get u) = Option (Option Text)
Answer (cache_insert u n) = Unit {0}
Answer now = Instant
Answer process_id = ℕ
Answer (eprintln l) = Unit {0}
Answer (env_var v) = Option Text
Answer unbound_datagram = Result Fd IoError
Answer (abstract_address a) = Result (Unit {0}) IoError
Answer (send_to_abstract s a m) = Result (Unit {0}) IoError
Answer (send_to_path s p m) = Result (Unit {0}) IoError
Answer socket_pair = Result (Fd × Fd) IoError
Answer (read_to_end s) = Result (List Byte) IoError
Answer (write_line s t) = Result (Unit {0}) IoError
Answer (connect_stream p) = Result Fd IoError
Answer (write_all s b) = Result (Unit {0}) IoError
Answer (shutdown_write s) = Result (Unit {0}) IoError
Answer (read_to_string s) = Result Text IoError
Answer (sleep d) = Unit {0}
Answer temp_dir = FilePath
Answer (create_dir_all p) = Result (Unit {0}) IoError
Answer (remove_dir_all p) = Result (Unit {0}) IoError
Answer (file_mode p) = Result ℕ IoError
Answer current_exe = Result FilePath IoError
Answer since_epoch = Option ℕ
Answer (spawn p a v x) = Result ℕ IoError
Answer (kill_child c) = Result (Unit {0}) IoError
Answer (wait_child c) = Result (Unit {0}) IoError
Answer (take_stderr c) = Option Fd
Answer (close l) = Unit {0}

-- A program is a tree of commands: what it does next may depend on the answers so far.
pub data Io (A : Type 0) : Type 0 where
  ret : A → Io A
  exec : (c : Command) → (Answer c → Io A) → Io A

infixl 5 ◌>>=◌ ◌>>◌
abbrev pub ◌>>=◌ : {A B : Type 0} → Io A → (A → Io B) → Io B
ret a >>= f = f a
exec c k >>= f = exec c (λ r. k r >>= f)

abbrev pub ◌>>◌ : {A B : Type 0} → Io A → Io B → Io B
m >> n = m >>= λ _. n

abbrev pub ask : (c : Command) → Io (Answer c)
ask c = exec c (λ r. ret r)

-- the `?` after a command
abbrev pub try_then :
    {A B : Type 0} → (A → Io (Result B IoError)) → Result A IoError → Io (Result B IoError)
try_then next (ok a) = next a
try_then next (err error) = ret (err error)

-- One command and the answer that it got.
pub record Event : Type 0 where
  pub command : Command
  pub answer : Answer command

pub record Outcome (A S : Type 0) : Type 0 where
  pub result : A
  pub trace : List Event
  pub state : S

-- Surroundings that answer every command, changing a state of their own.
abbrev pub Handler : Type 0 → Type 0
Handler S = (c : Command) → S → Answer c × S

module _ {S : Type 0} (h : Handler S) where
  -- The result of a program, the commands that it made in order, and the state that it leaves.
  abbrev pub run : {A : Type 0} → Io A → S → Outcome A S
  run (ret a) s = record { result = a; trace = []; state = s }
  run (exec c k) s =
      let (r, s') = h c s in
      let o = run (k r) s' in
      record {
        result = o.result;
        trace = record { command = c; answer = r } ∷ o.trace;
        state = o.state;
      }

  pub run-bind :
      {A B : Type 0} (m : Io A) (f : A → Io B) (s : S)
      → run (m >>= f) s ≡ record {
        result = (run (f (run m s).result) (run m s).state).result;
        trace = (run m s).trace ++ (run (f (run m s).result) (run m s).state).trace;
        state = (run (f (run m s).result) (run m s).state).state;
      }
  run-bind (ret a) f s = refl
  run-bind (exec c k) f s = rw (run-bind (k (h c s).0) f (h c s).1)
