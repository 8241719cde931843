-- ===== src/Socket.antt =====
-- src/socket.rs: binding the socket, giving it away, reclaiming it, accepting on it.
pub mod Config
pub mod Reclaim
pub mod Group
pub mod Bind
pub mod Accept
pub mod Notes
pub mod Tests
mod UnitTests
