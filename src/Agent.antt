-- ===== src/Agent.antt =====
-- smbpal/agent: the per-user mount agent of macOS.
pub mod Tracks
pub mod Failures
pub mod LoopState
pub mod Reporting
pub mod Reconnect
pub mod Ledger
