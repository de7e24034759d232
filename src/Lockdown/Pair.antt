-- ===== src/Lockdown/Pair.antt =====
-- src/lockdown.c: pairing the computer with the device, validating the pairing and giving it up.
pub mod Record
pub mod Request
pub mod Secret
pub mod Records
pub mod HostId
