-- ===== src/P2p.antt =====
-- The package p2p: messages and peers, the framing and the receive sessions of a connection, the
-- handshake, the transport, and the sessions of the message broker.
pub mod Message
pub mod Session
pub mod Stream
pub mod Peer
pub mod Channel
pub mod Transport
pub mod Handshake
mod Tests
