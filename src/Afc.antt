-- ===== src/Afc.antt =====
-- src/afc.c and src/afc.h: the client of the Apple File Conduit, the device's file service.
pub mod Error
pub mod Op
pub mod Packet
pub mod Client
pub mod Receive
pub mod Command
pub mod Strings
pub mod Path
pub mod File
pub mod Session
