-- ===== src/Network.antt =====
-- The network engine (network/): the threads that own the sockets, and the engine that shares the
-- connections out among them.
pub mod Trans
pub mod Pool
mod Examples
