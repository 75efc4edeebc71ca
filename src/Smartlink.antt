-- ===== src/Smartlink.antt =====
-- The example server on top of the network engine and the cluster (smartlink/): its clients.
pub mod Table
pub mod Frame
pub mod Directory
pub mod Run
pub mod Session
pub mod App
pub mod Cross
mod Examples
