-- ===== src/PeerListener.antt =====
-- rita_common/src/peer_listener: how neighbours find each other. Only the messages are modelled.
pub mod Message
mod Codec
mod Tests
