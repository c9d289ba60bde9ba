-- ===== src/Webrtc/Manager/Invocations.antt =====
-- webrtc/webrtc_manager.cc: the helpers that read a handler under the lock and invoke it outside.
use whl_air.Base.{String, none, some, List, [], ◌∷◌}
use whl_air.Webrtc.Interfaces.{
  IPeerConnection, ISignalingClient, DataChannelMessage, Call, signaling_connected,
  signaling_disconnected, signaling_error, peer_connected, peer_disconnected, peer_error,
  data_channel_message,
}
use whl_air.Webrtc.Manager.{Manager}

module _ {net : IPeerConnection} {sig : ISignalingClient} where
  unfoldable pub invoke_signaling_connected_callback : Manager net sig → List Call
  invoke_signaling_connected_callback m = elim m.on_signaling_connected_handler [
    | none ↦ []
    | some handler ↦ signaling_connected handler ∷ []
  ]

  unfoldable pub invoke_signaling_disconnected_callback : Manager net sig → String → List Call
  invoke_signaling_disconnected_callback m reason = elim m.on_signaling_disconnected_handler [
    | none ↦ []
    | some handler ↦ signaling_disconnected handler reason ∷ []
  ]

  unfoldable pub invoke_signaling_error_callback : Manager net sig → String → List Call
  invoke_signaling_error_callback m error_msg = elim m.on_signaling_error_handler [
    | none ↦ []
    | some handler ↦ signaling_error handler error_msg ∷ []
  ]

  unfoldable pub invoke_peer_connected_callback : Manager net sig → String → List Call
  invoke_peer_connected_callback m peer = elim m.on_peer_connected_handler [
    | none ↦ []
    | some handler ↦ peer_connected handler peer ∷ []
  ]

  unfoldable pub invoke_peer_disconnected_callback : Manager net sig → String → String → List Call
  invoke_peer_disconnected_callback m peer reason = elim m.on_peer_disconnected_handler [
    | none ↦ []
    | some handler ↦ peer_disconnected handler peer reason ∷ []
  ]

  unfoldable pub invoke_peer_error_callback : Manager net sig → String → String → List Call
  invoke_peer_error_callback m peer error_msg = elim m.on_peer_error_handler [
    | none ↦ []
    | some handler ↦ peer_error handler peer error_msg ∷ []
  ]

  unfoldable pub invoke_data_channel_message_received_callback :
      Manager net sig → String → String → DataChannelMessage → List Call
  invoke_data_channel_message_received_callback m peer label bytes =
      elim m.on_data_channel_message_received_handler [
        | none ↦ []
        | some handler ↦ data_channel_message handler peer label bytes ∷ []
      ]
