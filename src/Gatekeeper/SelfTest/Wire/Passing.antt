-- ===== src/Gatekeeper/SelfTest/Wire/Passing.antt =====
-- A self-test that passes on a connection in memory: its client asks, its daemon answers, and its
-- client reads.
use uds_policy.Common.{
  parse_uint, decimal, none, some, Option, ◌∙◌, subst, sym, arith, contains_text, ◌≡◌, refl, true,
  false, ok, Result, [], Text, codes,
}
use uds_policy.System.{FilePath, Io, run}
use uds_policy.System.Threads.{Pool, Reach, Reach-mono, Reach-trans}
use uds_policy.System.Schedule.{gone, Went, went, Ran, ran_at}
use uds_policy.System.Always.{run-Yields, Yields, Yields-mono}
use uds_policy.Caller.Names.{name_for_uid}
use uds_policy.Caller.Render
use uds_policy.Call
use uds_policy.Audit.{begin, finish, describe}
use uds_policy.Authorization.{for_uids, peer_gate, authorize, contains}
use uds_policy.Gatekeeper.{answer, answered, exchange}
use uds_policy.Socket.Bind.{bind, drop}
use uds_policy.Socket.Config.{new}
use uds_policy.Socket.Accept.{accept}
use uds_policy.Caller.{of_credentials, of_socket, uid}
use uds_policy.Watchdog.Notify.{notify_ready, notify, notify_to}
use uds_policy.Watchdog.Heartbeat.{heartbeat_interval, heartbeat_from}
use uds_policy.Watchdog.Activity
use uds_policy.Gatekeeper.Serve.{Turned, serve, own, armed, looped, left, turn, goes_on}
use uds_policy.Gatekeeper.SelfTest.{mode, self_testing, judged}
use uds_policy.Gatekeeper.SelfTest.Halves.{
  Failed, Place, Half, served, read, halves, prepared, ended, removed,
}
use uds_policy.Gatekeeper.SelfTest.Whole.{spawned, joined, self_tested}
use uds_policy.Gatekeeper.SelfTest.Whole.Verdict.{passing}
use uds_policy.Gatekeeper.SelfTest.Wire.Answered.{Verified, main_answered}
use uds_policy.Gatekeeper.SelfTest.Client.{client, spoken, greeted}
use uds_policy.Gatekeeper.SelfTest.Wire.Shared.{Wired, wire_may, silent}
use uds_policy.Gatekeeper.SelfTest.Wire.Memory.{on_wire, on_wire-may, ascii, reply}

abbrev as_text : FilePath → Option Text
as_text path = some path

abbrev place : Place
place = record {
  dir = codes "/tmp/uds-policy-self-test-42";
  socket_path = codes "/tmp/uds-policy-self-test-42/gatekeeper.sock";
  path_string = codes "/tmp/uds-policy-self-test-42/gatekeeper.sock";
}

abbrev both : Pool Wired Half
both = spawned ascii 1 1 place silent

abbrev was_asked : Wired
was_asked = record { asked = codes "hello"; shut = true; told = [] }

abbrev was_told : Wired
was_told = record was_asked { told = reply }

abbrev stamped : Turned
stamped = record {
  activity = record { state = record { last_tick = 0; in_flight = none }; poisoned = false };
  served = 1;
}

-- The client, up to its half-close.
abbrev rest : Io Half
rest = (gone on_wire 6 (both.threads 1) silent).0

gone_lem : (gone on_wire 6 (both.threads 1) silent).1 ≡ was_asked
unfolding halves client greeted spoken
gone_lem = refl

daemon_lem :
    ((run on_wire (both.threads 0) was_asked).result ≡ served (ok stamped))
    × ((run on_wire (both.threads 0) was_asked).state ≡ was_told)
unfolding halves serve own bind accept answer answered exchange begin finish describe notify_ready
    notify_to heartbeat_interval looped left turn goes_on armed new of_socket of_credentials
    for_uids authorize contains peer_gate Render.display name_for_uid Call.display Call.gated drop
    notify heartbeat_from parse_uint uid Activity.tick Activity.call_finished Activity.call_started
    Activity.new
daemon_lem = (refl, refl)

client_end :
    ((run on_wire rest was_told).result ≡ read (some (ok reply)))
    × ((run on_wire rest was_told).state ≡ was_told)
unfolding halves client greeted spoken
client_end = (refl, refl)

abbrev told_text : Text
told_text = passing ascii reply

verdict_lem : (run on_wire (ended ascii ascii place.dir (ok reply)) was_told).result ≡ ok told_text
unfolding ended removed judged own of_socket of_credentials uid for_uids authorize contains
    contains_text
verdict_lem = refl

located_lem : Yields (wire_may 8 4) (prepared as_text) silent (ok place) silent
unfolding prepared decimal
located_lem = (codes "/tmp", silent, refl, (42, silent, refl, (ok tt, silent, refl, (refl, refl))))

sent_first : Went on_wire both 1 rest was_asked
sent_first = subst (λ s. Went on_wire both 1 rest s) gone_lem (went on_wire 6 both 1)

answered_next : Ran on_wire sent_first.pool 0 (served (ok stamped)) was_told
answered_next =
    subst (λ a. Ran on_wire sent_first.pool 0 a was_told) daemon_lem.0
      (subst (λ s. Ran on_wire sent_first.pool 0 (run on_wire (both.threads 0) was_asked).result s)
        daemon_lem.1
        (ran_at on_wire sent_first.pool 0 (both.threads 0) was_asked
          (sent_first.others 0 λ e. omega arith) sent_first.left))

read_last : Ran on_wire answered_next.pool 1 (read (some (ok reply))) was_told
read_last =
    subst (λ a. Ran on_wire answered_next.pool 1 a was_told) client_end.0
      (subst (λ s. Ran on_wire answered_next.pool 1 (run on_wire rest was_told).result s)
        client_end.1
        (ran_at on_wire answered_next.pool 1 rest was_told
          (answered_next.others 1 (λ e. omega arith) ∙ sent_first.rest) answered_next.left))

abbrev last : Pool Wired Half
last = read_last.pool

reached : Reach (wire_may 8 4) both last
reached =
    Reach-mono on_wire-may
      (Reach-trans (Reach-trans sent_first.reached answered_next.reached) read_last.reached)

abbrev ending : Io (Result Text Failed)
ending = ended ascii ascii place.dir (ok reply)

abbrev after : Wired
after = (run on_wire ending was_told).state

ending_lem : Yields (wire_may 8 4) ending last.shared (ok told_text) after
ending_lem =
    subst (λ s. Yields (wire_may 8 4) ending s (ok told_text) after) (sym read_last.left)
      (subst (λ r. Yields (wire_may 8 4) ending was_told r after) verdict_lem
        (Yields-mono on_wire-may ending was_told after _ (run-Yields on_wire ending was_told)))

main_answered_example :
    (mode (some (codes "--self-test")) ≡ self_testing) × Verified ascii 8 4 ascii told_text
unfolding mode goes_on
main_answered_example =
    main_answered ascii 8 4 ascii ascii as_text 1 1 (some (codes "--self-test")) after told_text (
      self_tested (ok told_text) after refl (
        joined place silent last stamped (ok reply) (ok told_text) after located_lem reached
          (read_last.others 0 (λ e. omega arith) ∙ answered_next.returned) refl read_last.returned
          ending_lem))
