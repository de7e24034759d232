-- ===== src/Lockdown.antt =====
-- src/lockdown.c: the client of lockdownd, which starts sessions and services and pairs the computer
-- with the device.
pub mod Error
pub mod Client
pub mod Calls
pub mod Session
pub mod Pair
pub mod Start
pub mod Verdict
