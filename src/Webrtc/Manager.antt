-- ===== src/Webrtc/Manager.antt =====
-- webrtc/webrtc_manager.{h,cc}: the state of WebrtcManagerImpl. The mutex is held by every method
-- from the first access of a map or a handler to the last, so the methods are functions from state
-- to state; where a method works outside of the lock, its parts are functions of their own.
pub mod Lifecycle
pub mod Peers
pub mod Signals
pub mod PeerEvents
pub mod Handlers
pub mod Invocations
pub mod Kept
pub mod Registrations
pub mod Events
pub mod Soundness
pub mod Preserved
pub mod Reachable
pub mod Candidates
pub mod Teardown
pub mod Stopped
pub mod Heartbeats
pub mod Lost
pub mod Frame
pub mod Broadcast
pub mod Stale
use whl_air.Base.{ℕ, String, Bool, Option, none, List, []}
use whl_air.Base.Int.{ℤ, pos}
use whl_air.StringMap.{Map}
use whl_air.Webrtc.Interfaces.{IPeerConnection, ISignalingClient, Handler}

pub data AppState : Type 0 where
  uninitialized initializing initialized running stopping stopped : AppState

pub record PendingRemoteCandidate : Type 0 where
  pub candidate : String
  pub sdp_mid : String
  pub sdp_mline_index : ℤ

-- A unique_ptr is an object or null. Times are milliseconds of the steady clock.
pub record Manager (net : IPeerConnection) (sig : ISignalingClient) : Type 0 where
  pub heartbeat_interval_ms : ℤ
  pub state : AppState
  pub signaling_client : Option sig.Client
  pub peer_connections : Map (Option net.Pc)
  pub on_signaling_connected_handler : Option Handler
  pub on_signaling_disconnected_handler : Option Handler
  pub on_signaling_error_handler : Option Handler
  pub on_peer_connected_handler : Option Handler
  pub on_peer_disconnected_handler : Option Handler
  pub on_peer_error_handler : Option Handler
  pub on_data_channel_message_received_handler : Option Handler
  pub last_heartbeat_rx_time : Map ℕ
  pub reconnection_attempt_count : Map ℤ
  pub remote_description_set : Map Bool
  pub pending_remote_candidates : Map (List PendingRemoteCandidate)

-- The constructor, with the initialisers of the members.
abbrev pub new : (net : IPeerConnection) (sig : ISignalingClient) → Manager net sig
new net sig = record {
  heartbeat_interval_ms = pos 5000;
  state = uninitialized;
  signaling_client = none;
  peer_connections = [];
  on_signaling_connected_handler = none;
  on_signaling_disconnected_handler = none;
  on_signaling_error_handler = none;
  on_peer_connected_handler = none;
  on_peer_disconnected_handler = none;
  on_peer_error_handler = none;
  on_data_channel_message_received_handler = none;
  last_heartbeat_rx_time = [];
  reconnection_attempt_count = [];
  remote_description_set = [];
  pending_remote_candidates = [];
}
