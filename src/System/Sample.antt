-- ===== src/System/Sample.antt =====
-- Surroundings for the tests: a clock that goes 5 ms forward at each reading, and a few accounts.
use uds_policy.Common.{
  ℕ, ◌+◌, pos, true, Option, none, some, Result, ok, err, Text, codes, ◌==◌, if◌then◌else◌,
}
use uds_policy.System.{
  Handler, Errno, IoError, connection_refused, other_kind, exists, symlink_is_socket, connect,
  remove_file, bind_listener, set_permissions, chown_group, accept_stream, set_read_timeout,
  time_val, set_receive_timeout, peer_credentials, group_from_name, user_from_uid, cache_get,
  cache_insert, now, process_id, eprintln, env_var, unbound_datagram, abstract_address,
  send_to_abstract, send_to_path, socket_pair, read_to_end, write_line, connect_stream, write_all,
  shutdown_write, read_to_string, sleep, temp_dir, create_dir_all, remove_dir_all, file_mode,
  current_exe, since_epoch, spawn, kill_child, wait_child, take_stderr, close,
}

abbrev pub refused : IoError
refused = record { kind = connection_refused; message = codes "Connection refused" }

abbrev pub denied : IoError
denied = record { kind = other_kind 13; message = codes "Permission denied" }

abbrev pub unreachable : Errno
unreachable = record { text = codes "EIO: I/O error"; as_io = denied }

abbrev pub account : ℕ → Result (Option Text) Errno
account uid =
    if uid == 1000
    then ok (some (codes "you"))
    else if uid == 0
    then ok (some (codes "root"))
    else if uid == 77
    then err unreachable
    else ok none

abbrev pub sample : Handler ℕ
sample now t = (t, t + 5_000_000)
sample process_id t = (42, t)
sample (user_from_uid uid) t = (account uid, t)
sample (exists p) t = (true, t)
sample (symlink_is_socket p) t = (ok true, t)
sample (connect p) t = (err refused, t)
sample (remove_file p) t = (ok tt, t)
sample (bind_listener p) t = (ok 3, t)
sample (set_permissions p m) t = (ok tt, t)
sample (chown_group p g) t = (err denied, t)
sample (accept_stream l) t = (ok 4, t)
sample (set_read_timeout s d) t = (ok tt, t)
sample (time_val u) t = (u, t)
sample (set_receive_timeout l u) t = (ok tt, t)
sample (peer_credentials s) t = (ok (record { pid = pos 4711; uid = 1000; gid = 1000 }), t)
sample (group_from_name g) t = (ok (some 970), t)
sample (cache_get u) t = (none, t)
sample (cache_insert u n) t = (tt, t)
sample (eprintln l) t = (tt, t)
sample (env_var v) t = (some (codes "@notify"), t)
sample unbound_datagram t = (ok 5, t)
sample (abstract_address a) t = (ok tt, t)
sample (send_to_abstract s a m) t = (ok tt, t)
sample (send_to_path s p m) t = (ok tt, t)
sample socket_pair t = (ok (6, 7), t)
sample (read_to_end s) t = (ok (codes "hello"), t)
sample (write_line s l) t = (ok tt, t)
sample (connect_stream p) t = (ok 8, t)
sample (write_all s b) t = (ok tt, t)
sample (shutdown_write s) t = (ok tt, t)
sample (read_to_string s) t = (ok (codes "Thing.Change said: hello"), t)
sample (sleep d) t = (tt, t + d)
sample temp_dir t = (codes "/tmp", t)
sample (create_dir_all p) t = (ok tt, t)
sample (remove_dir_all p) t = (ok tt, t)
sample (file_mode p) t = (ok 0o140660, t)
sample current_exe t = (ok (codes "/t/socket"), t)
sample since_epoch t = (some t, t)
sample (spawn p a v x) t = (ok 4711, t)
sample (kill_child c) t = (ok tt, t)
sample (wait_child c) t = (ok tt, t)
sample (take_stderr c) t = (some 9, t)
sample (close l) t = (tt, t)
