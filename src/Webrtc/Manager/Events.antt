-- ===== src/Webrtc/Manager/Events.antt =====
-- The manager under all its callers: one event is one critical section of the application's threads,
-- of the signaling client's thread or of the WebRTC threads. The sections before and after the
-- compare-and-exchange of init, start and stop are events of their own, in any order, which allows
-- every interleaving of the program and more.
-- handleReceivedHeartbeat and attemptReconnection have no caller and are no events.
use whl_air.Base.{ℕ, String, Option, none, some, List, [], ◌∷◌}
use whl_air.Base.Int.{ℤ}
use whl_air.StringMap
use whl_air.Signaling.Message.{SignalMessage}
use whl_air.Webrtc.Interfaces.{
  IPeerConnection, ISignalingClient, PeerConnectionState, DataChannelMessage, Handler,
}
use whl_air.Webrtc.Manager.{Manager}
use whl_air.Webrtc.Manager.Lifecycle.{
  init_begin, init_locked, start_begin, start_locked, stop_begin, stop_locked,
}
use whl_air.Webrtc.Manager.Peers.{
  hold, connect_to_peer, disconnect_from_peer, send_data_channel_message,
  send_data_channel_message_to_all_peers,
}
use whl_air.Webrtc.Manager.Signals.{handle_signaling_message}
use whl_air.Webrtc.Manager.PeerEvents.{
  handle_peer_local_sdp_generated, handle_peer_local_candidate_generated,
  handle_peer_connection_state_change, on_heartbeat_timer, Notice, handle_notice,
}
use whl_air.Webrtc.Manager.Handlers.{Slot, register}

pub data Event (net : IPeerConnection) (sig : ISignalingClient) : Type 0 where
  init_begins init_ends start_begins start_ends stop_begins stop_ends : Event net sig
  registers : Slot → Option Handler → Event net sig
  connects : String → Option net.Pc → Event net sig
  disconnects : String → Event net sig
  sends : String → String → DataChannelMessage → Event net sig
  broadcasts : String → DataChannelMessage → Event net sig
  receives : SignalMessage → Option net.Pc → Event net sig
  sdp_generated : String → String → String → Event net sig
  candidate_generated : String → String → String → ℤ → Event net sig
  state_changed : String → PeerConnectionState → Event net sig
  notices : Notice → Event net sig
  heartbeat_timer : ℕ → Event net sig
  -- The library changes a peer connection by itself, or the client that init would wire is there.
  drifts : String → net.Pc → Event net sig
  wires : sig.Client → Event net sig

module _ {net : IPeerConnection} {sig : ISignalingClient} where
  abbrev pub unless_fault {ℓ} :
      {A : Type ℓ} → Manager net sig → Option (Manager net sig × A) → Manager net sig
  unless_fault m none = m
  unless_fault m (some (next, a)) = next

  -- A drift of an object that the manager does not hold changes nothing.
  abbrev pub drift : Manager net sig → String → net.Pc → Option (Option net.Pc) → Manager net sig
  drift m peer pc (some (some old)) = hold peer pc m
  drift m peer pc _ = m

  unfoldable pub step : Manager net sig → Event net sig → Manager net sig
  step m init_begins = (init_begin m).0
  step m init_ends = (init_locked m).0
  step m start_begins = (start_begin m).0
  step m start_ends = (start_locked m).0
  step m stop_begins = (stop_begin m).0
  step m stop_ends = (stop_locked m).0
  step m (registers slot handler) = register slot m handler
  step m (connects peer created) = (connect_to_peer m peer created).0
  step m (disconnects peer) = unless_fault m (disconnect_from_peer m peer)
  step m (sends peer label bytes) = (send_data_channel_message m peer label bytes).0
  step m (broadcasts label bytes) = (send_data_channel_message_to_all_peers m label bytes).0
  step m (receives msg created) = (handle_signaling_message m msg created).0
  step m (sdp_generated peer kind sdp) = (handle_peer_local_sdp_generated m peer kind sdp).0
  step m (candidate_generated peer text mid index) =
      (handle_peer_local_candidate_generated m peer text mid index).0
  step m (state_changed peer state) = (handle_peer_connection_state_change m peer state).0
  step m (notices notice) = handle_notice m notice
  step m (heartbeat_timer now) = on_heartbeat_timer m now
  step m (drifts peer pc) = drift m peer pc (StringMap.find peer m.peer_connections)
  step m (wires client) = record m { signaling_client = some client }

  unfoldable pub run : Manager net sig → List (Event net sig) → Manager net sig
  run m [] = m
  run m (e ∷ rest) = run (step m e) rest
