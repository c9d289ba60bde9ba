-- ===== src/Webrtc/Manager/Stale.antt =====
-- Callbacks in webrtc/webrtc_manager.cc that come after the manager has given a peer up.
use whl_air.Base.{String, ◌≡◌, none, [], arith}
use whl_air.Base.Int.{ℤ}
use whl_air.StringMap.{find}
use whl_air.Webrtc.Interfaces.{
  IPeerConnection, ISignalingClient, PeerConnectionState, DataChannelMessage,
}
use whl_air.Webrtc.Manager.{Manager}
use whl_air.Webrtc.Manager.PeerEvents.{
  handle_peer_local_sdp_generated, handle_peer_local_candidate_generated,
  handle_peer_connection_state_change, handle_peer_data_channel_message, handle_peer_error,
}
use whl_air.Webrtc.Manager.Teardown.{contains-none}

module _ {net : IPeerConnection} {sig : ISignalingClient} (m : Manager net sig)
    (peer : String) where
  -- What a callback of a peer's connection brings: a description, a candidate, a state, a message and
  -- an error. For a peer for which the manager holds nothing none of them sends a signal, changes the
  -- manager or reaches a handler of the application.
  stale_callbacks_ignored :
      (sdp_type sdp text mid label error : String) (index : ℤ) (state : PeerConnectionState)
      (bytes : DataChannelMessage)
      → find peer m.peer_connections ≡ none
      → (handle_peer_local_sdp_generated m peer sdp_type sdp ≡ (m, []))
        × (handle_peer_local_candidate_generated m peer text mid index ≡ (m, []))
        × (handle_peer_connection_state_change m peer state ≡ (m, []))
        × (handle_peer_data_channel_message m peer label bytes ≡ [])
        × (handle_peer_error m peer error ≡ [])
  unfolding handle_peer_local_sdp_generated handle_peer_local_candidate_generated
      handle_peer_connection_state_change handle_peer_data_channel_message handle_peer_error
  stale_callbacks_ignored sdp_type sdp text mid label error index state bytes gone =
      let unknown_peer = contains-none peer m.peer_connections gone in
      (
        ground (arith, unknown_peer),
        ground (arith, unknown_peer),
        ground (arith, unknown_peer),
        ground (arith, unknown_peer),
        ground (arith, unknown_peer),
      )
