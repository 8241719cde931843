-- ===== src/Gatekeeper/SelfTest/Client.antt =====
-- The client of `self_test` in examples/gatekeeper.rs: the thread that waits for the socket, sends
-- its request and reads the reply.
pub mod Settles
use uds_policy.Common.{
  ℕ, zero, suc, ◌+◌, Bool, true, false, Option, none, some, Result, ok, err, Text, codes, ltb,
  if◌then◌else◌,
}
use uds_policy.System.{
  FilePath, Instant, Fd, IoError, other_kind, Io, ret, ask, ◌>>=◌, ◌>>◌, try_then, from_secs,
  from_millis, now, exists, sleep, connect_stream, set_read_timeout, write_all, shutdown_write,
  read_to_string,
}

-- `std::io::Error::other`, whose kind is one of those that the code does not tell apart
abbrev pub other : Text → IoError
other text = record { kind = other_kind 0; message = text }

abbrev pub never_bound : Result (Unit {0}) IoError
never_bound = err (other (codes "the daemon never bound its socket"))

-- the body of the `while`: whether it returned the error
unfoldable pub overslept : Bool → Io Bool
overslept true = ret true
overslept false = do ask (sleep (from_millis 20)); ret false

-- one round: what ends the loop, if it does
unfoldable pub looked : Instant → Bool → Io (Option (Result (Unit {0}) IoError))
unfolding overslept
looked deadline true = ret (some (ok tt))
looked deadline false = do
  at ← ask now
  late ← overslept (ltb deadline at)
  ret (if late then some never_bound else none)

-- `while !client_path.exists()`, for as many rounds as it is given: `none` if it still waits.
unfoldable pub waited : ℕ → FilePath → Instant → Io (Option (Result (Unit {0}) IoError))
unfolding looked
waited zero path deadline = ret none
waited (suc n) path deadline = do
  there ← ask (exists path)
  r ← looked deadline there
  elim r [ none ↦ waited n path deadline | some settled ↦ ret (some settled) ]

-- what is sent on the stream, up to the half-close
unfoldable pub greeted : Fd → Io (Result (Unit {0}) IoError)
greeted stream = do
  timed ← ask (set_read_timeout stream (some (from_secs 20)))
  try_then
      (λ _. ask (write_all stream (codes "hello")) >>= try_then (λ _. ask (shutdown_write stream)))
      timed

-- the exchange on the stream
unfoldable pub spoken : Fd → Io (Result Text IoError)
unfolding greeted
spoken stream = do r ← greeted stream; try_then (λ _. ask (read_to_string stream)) r

-- what follows the `while`
unfoldable pub requested : FilePath → Io (Result Text IoError)
unfolding spoken
requested path = do stream ← ask (connect_stream path); try_then spoken stream

unfoldable pub resumed :
    FilePath → Option (Result (Unit {0}) IoError) → Io (Option (Result Text IoError))
unfolding requested
resumed path none = ret none
resumed path (some r) = do reply ← try_then (λ _. requested path) r; ret (some reply)

unfoldable pub client : ℕ → FilePath → Io (Option (Result Text IoError))
unfolding waited resumed
client rounds path = do
  start ← ask now
  r ← waited rounds path (start + from_secs 20)
  resumed path r
