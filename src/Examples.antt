-- ===== src/Examples.antt =====
-- The theorems at concrete inputs, over small models of the outside world.
pub mod Wire
pub mod Net
pub mod Replies
mod Transport
mod Receiving
mod Buffers
pub mod Plists
pub mod Links
mod Files
mod Debug
mod Stacks
mod Sync
mod Nodes
mod Stored
pub mod Lockdown
mod Pairing
pub mod Handshakes
pub mod Inspector
mod Installing
