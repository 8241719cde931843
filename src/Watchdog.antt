-- ===== src/Watchdog.antt =====
-- src/watchdog.rs: the busy-or-wedged distinction, the heartbeat and the `sd_notify` client.
pub mod Liveness
pub mod Activity
pub mod Heartbeat
pub mod Notify
pub mod Timeline
pub mod UnitTests
mod Tests
