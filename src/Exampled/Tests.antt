-- ===== src/Exampled/Tests.antt =====
-- The documented daemon on a file system with one path, in memory, with a protocol of one line.
use uds_policy.Common.{codes, refl}
use uds_policy.System.{Fd, Io, ret, ask, ◌>>◌, run, write_line}
use uds_policy.Socket.Bind.Kernel.{dead_socket}
use uds_policy.Socket.Tests.Memory
use uds_policy.Socket.Tests.Memory.{memory}
use uds_policy.Gatekeeper.Serve.Lifecycle.{ServeKernel}
use uds_policy.Gatekeeper.Serve.Tests.{elsewhere_lem}
use uds_policy.Exampled.{config, run_daemon}
use uds_policy.Exampled.Accepts.{accepts, EndsWith}
use uds_policy.Exampled.Lifecycle.{DaemonPromise, run_daemon_refines}

abbrev speak : Fd → Io (Unit {0})
speak stream = ask (write_line stream (codes "hello")) >> ret tt

abbrev kernel : ServeKernel memory config.socket_path
kernel = record {
  path = Memory.kernel config.socket_path;
  unlink_lem = λ m s e. refl;
  elsewhere_lem = elsewhere_lem;
}

run_daemon_refines_example :
    let o = run memory (run_daemon speak 3) dead_socket in
    DaemonPromise dead_socket o.result o.state × EndsWith 3 o.result (accepts o.trace)
run_daemon_refines_example =
    run_daemon_refines speak (λ stream. (tt, λ r. tt)) (λ stream. (tt, λ r. tt)) memory kernel 3
      dead_socket
