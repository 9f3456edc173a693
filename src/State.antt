-- ===== src/State.antt =====
-- smbpal/state: the words for a connection's state, the reading of a mount unit's journal, the
-- derivation of the state, and the monitor that polls and primes.
pub mod States
pub mod Translate
pub mod Machine
pub mod Monitor
