-- ===== src/Lockdown/Start.antt =====
-- src/lockdown.c: starting a service, and making a client.
pub mod Service
pub mod New
pub mod Handshake
pub mod Classes
pub mod Descriptors
pub mod HandedOut
pub mod Factory
pub mod Coded
pub mod Returns
pub mod Handshakes
