-- ===== src/Cluster.antt =====
-- The package cluster: the nodes of a process, and the peers that a server knows.
pub mod Nodes
pub mod Server
pub mod Client
pub mod Membership
pub mod Peers
mod Tests
