-- ===== src/Caller/UnitTests.antt =====
-- The unit tests of src/caller.rs, under their names, and that they pass on the model.
use uds_policy.Common.{
  ℕ, ℤ, pos, ◌++◌, ◌≡◌, refl, Bool, true, false, not, ◌&&◌, Option, none, some, Result, ok, err,
  Text, codes, text_eq, starts_with, contains_char, repeat, length, leb, flatten, ◌==◌, [], decimal,
  signed_decimal,
}
use uds_policy.System.{
  Fd, IoError, Handler, Io, ret, run, ask, ◌>>=◌, socket_pair, process_id, peer_credentials,
}
use uds_policy.System.Sample.{sample}
use uds_policy.Caller
use uds_policy.Caller.{Caller, peer, unreadable, in_process, of_socket}
use uds_policy.Caller.Names.{sanitize, name_for_uid, get}
use uds_policy.Caller.Names.Memo.{with_cache}
use uds_policy.Caller.Render

a_peer_is_rendered_with_its_numbers : Io Bool
unfolding text_eq
a_peer_is_rendered_with_its_numbers = do
  shown ← Render.display (peer (pos 1421) 4_294_967_294 4_294_967_293)
  ret (text_eq shown (codes "uid 4294967294 gid 4294967293 pid 1421"))

-- `pid != i32::try_from(std::process::id())?`
same_process : ℤ → ℕ → Bool
same_process (pos pid) id = pid == id
same_process _ id = false

is_number : Option ℕ → ℕ → Bool
is_number (some n) m = n == m
is_number none m = false

-- behind `let Caller::Peer { … } = caller else { … }`
attributed : Caller → ℕ → Io Bool
unfolding same_process is_number starts_with Caller.uid Caller.gid
attributed (peer pid uid gid) id =
    let read_back = peer pid uid gid in
    do
      rendered ← Render.display (peer pid 0 0)
      ret (
          same_process pid id
          && is_number (Caller.uid read_back) uid
          && is_number (Caller.gid read_back) gid
          && starts_with rendered (codes "root(uid 0 gid 0 pid "))
attributed _ id = ret false

-- `UnixStream::pair()?`
paired : Result (Fd × Fd) IoError → Io Bool
unfolding attributed of_socket
paired (err error) = ret false
paired (ok (here, there)) = do caller ← of_socket here; id ← ask process_id; attributed caller id

an_accepted_socket_names_this_process : Io Bool
unfolding paired
an_accepted_socket_names_this_process = do pair ← ask socket_pair; paired pair

-- `assert_eq!(…, None)`
is_none : Option Text → Bool
is_none none = true
is_none (some a) = false

no_number {ℓ} : {A : Type ℓ} → Option A → Bool
no_number none = true
no_number (some a) = false

a_callerless_dispatch_has_no_numbers : Io Bool
unfolding is_none no_number Caller.uid Caller.gid Caller.pid Render.account_name
a_callerless_dispatch_has_no_numbers = do
  name ← Render.account_name in_process
  ret (
      no_number (Caller.uid in_process)
      && no_number (Caller.gid in_process)
      && no_number (Caller.pid in_process)
      && is_none name)

an_unreadable_caller_is_recorded_not_dropped : Io Bool
unfolding text_eq
an_unreadable_caller_is_recorded_not_dropped = do
  shown ← Render.display (unreadable (codes "Socket operation on non-socket"))
  ret (text_eq shown (codes "unreadable (Socket operation on non-socket)"))

an_account_name_cannot_forge_a_journal_line : Bool
unfolding sanitize contains_char repeat
an_account_name_cannot_forge_a_journal_line =
    let forged = sanitize (codes "a\nexampled: audit: ok " ++ repeat b'x' 200) in
    not (contains_char forged b'\n') && leb (length forged) 64

-- The tests that ask for nothing pass on every surroundings.
module _ {S : Type 0} (h : Handler S) (s : S) where
  unit_tests_pass :
      ((run h a_callerless_dispatch_has_no_numbers s).result ≡ true)
      × ((run h an_unreadable_caller_is_recorded_not_dropped s).result ≡ true)
      × (an_account_name_cannot_forge_a_journal_line ≡ true)
  unfolding a_callerless_dispatch_has_no_numbers an_unreadable_caller_is_recorded_not_dropped
      an_account_name_cannot_forge_a_journal_line Render.display flatten
  unit_tests_pass = (refl, refl, refl)

-- A process of root's, whose account exists.
abbrev of_root : Handler ℕ
of_root (peer_credentials fd) t = (ok (record { pid = pos 42; uid = 0; gid = 0 }), t)
of_root c t = sample c t

kernel_tests_pass :
    ((run (with_cache of_root) a_peer_is_rendered_with_its_numbers ([], 0)).result ≡ true)
    × ((run (with_cache of_root) an_accepted_socket_names_this_process ([], 0)).result ≡ true)
unfolding a_peer_is_rendered_with_its_numbers an_accepted_socket_names_this_process Render.display
    Caller.of_credentials Render.numbers name_for_uid get sanitize flatten decimal signed_decimal
kernel_tests_pass = (refl, refl)
