-- ===== src/Webrtc/Interfaces.antt =====
-- The interfaces between the WebRTC manager and what it drives: webrtc/peer_connection.h
-- (IPeerConnection), signaling/signaling_client.h (SignalingClient) and the application's handlers
-- and states of webrtc/i_webrtc_manager.h.
use whl_air.Base.{ℕ, String, Bool, List}
use whl_air.Base.Int.{ℤ}
use whl_air.Signaling.Message.{SignalMessage}

pub data PeerConnectionState : Type 0 where
  new connecting connected disconnected failed closed : PeerConnectionState

-- `DataChannelMessage`: bytes.
abbrev pub DataChannelMessage : Type 0
DataChannelMessage = List ℕ

-- A peer connection object. A method returns the object's new state; its callbacks come later, as
-- events of their own.
pub record IPeerConnection : Type 1 where
  pub Pc : Type 0
  pub create_offer : Pc → Pc × Bool
  pub create_answer : Pc → Pc × Bool
  pub set_remote_description : Pc → String → String → Pc × Bool
  pub add_remote_candidate : Pc → String → String → ℤ → Pc × Bool
  pub send_data : Pc → String → DataChannelMessage → Pc × Bool
  pub close : Pc → Pc
  pub get_connection_state : Pc → PeerConnectionState

-- A signaling client object. A call has no report: init leaves the manager without a client, and no
-- handler is registered with one, so none of its reports reaches the manager from within a call.
pub record ISignalingClient : Type 1 where
  pub Client : Type 0
  pub connect : Client → Client
  pub disconnect : Client → Client
  pub send_signal : Client → SignalMessage → Client

-- A handler that the application has registered, by an id of the callable.
abbrev pub Handler : Type 0
Handler = ℕ

-- An invocation of a handler of the application.
pub data Call : Type 0 where
  signaling_connected : Handler → Call
  signaling_disconnected : Handler → String → Call
  signaling_error : Handler → String → Call
  peer_connected : Handler → String → Call
  peer_disconnected : Handler → String → String → Call
  peer_error : Handler → String → String → Call
  data_channel_message : Handler → String → String → DataChannelMessage → Call
