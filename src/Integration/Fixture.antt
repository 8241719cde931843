-- ===== src/Integration/Fixture.antt =====
-- The daemon that tests/socket.rs runs in a child process, the client that calls it, and what the
-- audit test asserts of the reply and of the daemon's stderr.
pub mod Journal
pub mod Tests
use uds_policy.Common.{
  ℕ, zero, suc, ◌+◌, Bool, true, false, not, ◌&&◌, Option, none, some, Result, ok, err, [], ◌∷◌,
  Text, codes, format, decimal, ltb, text_eq, contains_text, if◌then◌else◌,
}
use uds_policy.System.{
  FilePath, Instant, Fd, IoError, Io, ret, ask, try_then, other_kind, ◌>>=◌, ◌>>◌, exists, now,
  sleep, from_secs, from_millis, connect_stream, set_read_timeout, write_all, shutdown_write,
  read_to_string, write_line,
}
use uds_policy.Call
use uds_policy.Call.{Call}
use uds_policy.Caller.{Caller}
use uds_policy.Audit.{begin, finish}
use uds_policy.Socket.Config.{Socket}
use uds_policy.Socket.Accept.{accept}

-- `CHANGE` and `READ`
abbrev pub change : Call
change = Call.gated (codes "Thing") (codes "Change") (codes "org.example.thing.change")

abbrev pub read : Call
read = Call.unprivileged (codes "Thing") (codes "Read")

abbrev pub service : Text
service = codes "testd"

-- `read.err().map(|error| error.to_string())`
pub failure_of : Result Text IoError → Option Text
failure_of (ok asked) = none
failure_of (err error) = some error.message

-- `if failure.is_none()`
pub replied : Fd → Call → Result Text IoError → Io (Unit {0})
replied stream call (ok asked) = do
  ask (write_line stream (format (Call.display call ∷ codes " ok" ∷ [])))
  ret tt
replied stream call (err error) = ret tt

-- `trim` is `str::trim`, and `left` what a read that fails leaves in its string.
module _ (trim : Text → Text) (left : IoError → Text) where
  asked : Result Text IoError → Text
  asked (ok text) = text
  asked (err error) = left error

  -- what is asked for
  unfoldable pub wanted : Result Text IoError → Call
  unfolding asked text_eq
  wanted r = if text_eq (trim (asked r)) (codes "change") then change else read

  -- after `stream.read_to_string(&mut asked)`
  unfoldable pub answered : Fd → Caller → Call → Result Text IoError → Io (Unit {0})
  unfolding replied failure_of
  answered stream caller call r = do
    audit ← begin service call caller
    replied stream call r
    finish audit (failure_of r)

  -- The `loop` of `the_fixture_daemon`, for as many turns as it is given: the error of the `accept`
  -- at which it panics, if any.
  unfoldable pub serving : ℕ → Socket → Io (Option IoError)
  unfolding wanted answered
  serving zero socket = ret none
  serving (suc n) socket = do
    accepted ← accept socket
    elim accepted [
      | err error ↦ ret (some error)
      | ok (stream, caller) ↦ do
        r ← ask (read_to_string stream)
        answered stream caller (wanted r) r
        serving n socket
    ]

abbrev never_bound : FilePath → Result (Unit {0}) IoError
never_bound socket = err (record {
  kind = other_kind 0;
  message = format (codes "the fixture daemon never bound " ∷ socket ∷ []);
})

-- one round of the `while`, by whether its reading of the clock was before the deadline: what ends the
-- loop, if it does
looked : FilePath → Bool → Io (Option (Result (Unit {0}) IoError))
looked socket false = ret (some (never_bound socket))
looked socket true = do
  there ← ask (exists socket)
  if there then ret (some (ok tt)) else (do ask (sleep (from_millis 20)); ret none)

-- The `while`, for as many rounds as it is given: `none` if it still waits.
waited : ℕ → FilePath → Instant → Io (Option (Result (Unit {0}) IoError))
unfolding looked
waited zero socket deadline = ret none
waited (suc n) socket deadline = do
  at ← ask now
  r ← looked socket (ltb at deadline)
  elim r [ none ↦ waited n socket deadline | some settled ↦ ret (some settled) ]

unfoldable pub wait_for_socket : ℕ → FilePath → Io (Option (Result (Unit {0}) IoError))
unfolding waited
wait_for_socket rounds socket = do start ← ask now; waited rounds socket (start + from_secs 20)

-- after `UnixStream::connect(socket)?`
spoken : Text → Fd → Io (Result Text IoError)
spoken wire client = do
  timed ← ask (set_read_timeout client (some (from_secs 20)))
  try_then
      (λ _.
        ask (write_all client wire)
        >>= try_then
            (λ _. ask (shutdown_write client) >>= try_then (λ _. ask (read_to_string client))))
      timed

-- The text `wire` is ASCII, so its bytes are its characters.
unfoldable pub call : FilePath → Text → Io (Result Text IoError)
unfolding spoken
call socket wire = do client ← ask (connect_stream socket); try_then (spoken wire) client

-- what `audit_names_the_caller` asserts of the reply to a change, and of the journal
unfoldable pub names_the_caller : Text → Text → ℕ → Bool
unfolding contains_text
names_the_caller reply journal id =
    contains_text reply (codes "Thing.Change")
    && contains_text journal (codes "testd: audit: begin Thing.Change")
    && contains_text journal (codes "testd: audit: ok Thing.Change")
    && contains_text journal (codes "action=org.example.thing.change")
    && contains_text journal (codes "by=")
    && contains_text journal (format (codes "pid " ∷ decimal id ∷ []))

-- and of the journal after a read
unfoldable pub is_quiet : Text → Bool
unfolding contains_text
is_quiet quiet = not (contains_text quiet (codes "audit:"))
