-- ===== src/Ipc.antt =====
-- The socket between the daemon and its clients.
pub mod Framing
pub mod Protocol
pub mod Wire
pub mod Sessions
