-- ===== src/Gatekeeper/SelfTest/Whole/Tests.antt =====
-- A self-test on the sample host, its daemon before its client, and what its success stands on.
use uds_policy.Common.{
  ℕ, ◌≡◌, ◌∙◌, refl, subst, some, none, ok, false, Result, Text, List, Option, codes, decimal,
  contains_text, arith, parse_uint,
}
use uds_policy.System.{Byte, FilePath, Io, run, ret}
use uds_policy.System.Sample.{sample}
use uds_policy.System.Threads.{Pool, Reach, Reach-trans}
use uds_policy.System.Schedule.{follows, ran, Ran}
use uds_policy.System.Always.{run-Yields, Yields}
use uds_policy.Call
use uds_policy.Socket.Bind.{bind, drop}
use uds_policy.Socket.Config.{new}
use uds_policy.Socket.Accept.{accept}
use uds_policy.Caller.{of_credentials, of_socket, uid}
use uds_policy.Caller.Names.{name_for_uid}
use uds_policy.Caller.Render
use uds_policy.Authorization.{authorize, for_uids, contains, peer_gate}
use uds_policy.Audit.{begin, finish, describe}
use uds_policy.Watchdog.Notify.{notify_ready, notify, notify_to}
use uds_policy.Watchdog.Heartbeat.{heartbeat_interval, heartbeat_from}
use uds_policy.Watchdog.Activity
use uds_policy.Gatekeeper.{answer, answered, exchange}
use uds_policy.Gatekeeper.Serve.{Turned, serve, own, armed, looped, left, turn, goes_on}
use uds_policy.Gatekeeper.SelfTest.{mode, self_testing, judged}
use uds_policy.Gatekeeper.SelfTest.Client.{client}
use uds_policy.Gatekeeper.SelfTest.Halves.{
  Failed, Place, Half, served, read, halves, prepared, ended, removed,
}
use uds_policy.Gatekeeper.SelfTest.Whole.{spawned, joined, Returns, self_tested}
use uds_policy.Gatekeeper.SelfTest.Whole.Sound.{Passed, main_succeeds}
use uds_policy.Gatekeeper.SelfTest.Whole.Verdict.{passing}

abbrev ascii : List Byte → Text
ascii bytes = bytes

abbrev as_text : FilePath → Option Text
as_text path = some path

abbrev place : Place
place = record {
  dir = codes "/tmp/uds-policy-self-test-42";
  socket_path = codes "/tmp/uds-policy-self-test-42/gatekeeper.sock";
  path_string = codes "/tmp/uds-policy-self-test-42/gatekeeper.sock";
}

abbrev stamped : Turned
stamped = record {
  activity = record {
    state = record { last_tick = 25_000_000; in_flight = none };
    poisoned = false;
  };
  served = 1;
}

abbrev reply : Text
reply = codes "Thing.Change said: hello"

abbrev begun : Pool ℕ Half
begun = spawned ascii 1 1 place 0

-- The daemon's thread on the sample host.
daemon_lem : (run sample (begun.threads 0) 0).result ≡ served (ok stamped)
unfolding halves client serve own bind accept answer answered exchange begin finish describe
    notify_ready notify_to heartbeat_interval looped left turn goes_on armed new of_socket
    of_credentials for_uids authorize contains peer_gate Render.display name_for_uid Call.display
    Call.gated drop notify heartbeat_from parse_uint uid Activity.tick Activity.call_finished
    Activity.call_started Activity.new
daemon_lem = refl

-- The client's, whenever it begins.
client_lem : (t : ℕ) → (run sample (begun.threads 1) t).result ≡ read (some (ok reply))
unfolding halves client
client_lem t = refl

abbrev said : Text
said = passing ascii reply

verdict_lem : (t : ℕ) → (run sample (ended ascii ascii place.dir (ok reply)) t).result ≡ ok said
unfolding ended removed judged own of_socket of_credentials uid for_uids authorize contains
    contains_text
verdict_lem t = refl

located_lem : Yields (follows sample) (prepared as_text) 0 (ok place) 0
unfolding prepared decimal
located_lem = run-Yields sample (prepared as_text) 0

served_first : Ran sample begun 0 (served (ok stamped)) (run sample (begun.threads 0) 0).state
served_first =
    subst (λ a. Ran sample begun 0 a (run sample (begun.threads 0) 0).state) daemon_lem
      (ran sample begun 0 (begun.threads 0) refl)

read_next :
    Ran sample served_first.pool 1
      (read (some (ok reply)))
      (run sample (begun.threads 1) served_first.pool.shared).state
read_next =
    subst
      (λ a.
        Ran sample served_first.pool 1 a
          (run sample (begun.threads 1) served_first.pool.shared).state)
      (client_lem served_first.pool.shared)
      (ran sample served_first.pool 1 (begun.threads 1) (served_first.others 1 λ e. omega arith))

abbrev last : Pool ℕ Half
last = read_next.pool

served_then : last.threads 0 ≡ ret (served (ok stamped))
served_then = read_next.others 0 (λ e. omega arith) ∙ served_first.returned

abbrev ending : Io (Result Text Failed)
ending = ended ascii ascii place.dir (ok reply)

reached : Reach (follows sample) begun last
reached = Reach-trans served_first.reached read_next.reached

main-Returns :
    Returns ascii ascii ascii as_text 1 1
      (follows sample)
      (some (codes "--self-test"))
      0
      (ok said)
      (run sample ending last.shared).state
unfolding mode goes_on
main-Returns = self_tested (ok said) (run sample ending last.shared).state refl (
    joined place 0 last stamped (ok reply) (ok said) (run sample ending last.shared).state
      located_lem reached served_then refl read_next.returned
      (subst
        (λ r. Yields (follows sample) ending last.shared r (run sample ending last.shared).state)
        (verdict_lem last.shared) (run-Yields sample ending last.shared)))

main_succeeds_example :
    (mode (some (codes "--self-test")) ≡ self_testing)
    × Passed ascii ascii ascii as_text 1 1 (follows sample) 0 said
main_succeeds_example =
    main_succeeds ascii ascii ascii as_text 1 1 (follows sample) (some (codes "--self-test")) 0
      (run sample ending last.shared).state said main-Returns
