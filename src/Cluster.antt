-- ===== src/Cluster.antt =====
-- The cluster layer (cluster/): how servers find each other, tell each other who they are, and
-- exchange data.
pub mod Frame
pub mod State
pub mod Wire
pub mod Term
pub mod Sessions
pub mod Node
pub mod Run
mod Examples
