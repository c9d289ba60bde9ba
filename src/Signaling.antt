-- ===== src/Signaling.antt =====
-- The signaling messages and the client that carries them (signaling/).
pub mod Message
pub mod Names
pub mod Serialize
pub mod Deserialize
pub mod Numbers
pub mod Scan
pub mod Pieces
pub mod RoundTrip
pub mod Writable
pub mod Client
