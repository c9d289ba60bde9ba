-- ===== src/Webrtc.antt =====
-- The WebRTC layer (webrtc/).
pub mod Interfaces
pub mod Manager
pub mod PeerConnection
pub mod Delivery
