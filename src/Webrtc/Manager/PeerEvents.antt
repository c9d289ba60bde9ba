-- ===== src/Webrtc/Manager/PeerEvents.antt =====
-- webrtc/webrtc_manager.cc: the registration of handlers, the handlers of signaling-client and
-- peer-connection events, and the heartbeat logic. Each returns the manager after the locked part and
-- the invocations of the application's handlers that follow it.
use whl_air.Base.{
  ℕ, zero, suc, ◌*◌, ◌-◌, String, ◌==◌, Bool, true, false, ◌||◌, Option, none, some, List, [], ◌∷◌,
  ltb, if◌then◌else◌,
}
use whl_air.Base.Int.{ℤ, pos, negsuc}
use whl_air.StringMap
use whl_air.StringMap.{Map}
use whl_air.Signaling.Message.{SignalMessage, message, offer, answer, candidate}
use whl_air.Webrtc.Interfaces.{
  IPeerConnection, ISignalingClient, PeerConnectionState, connected, disconnected, failed, closed,
  DataChannelMessage, Call, signaling_connected, signaling_disconnected, peer_connected,
  peer_disconnected, data_channel_message,
}
use whl_air.Webrtc.Manager.{Manager}
use whl_air.Webrtc.Manager.Peers.{destroy_peer_connection}
use whl_air.Webrtc.Manager.Signals.{report_peer_error, report_signaling_error}

-- `static_cast`s aside, the reasons that handlePeerConnectionStateChange gives; `none` for a state
-- that is no end of the connection.
unfoldable pub end_reason : PeerConnectionState → Option String
end_reason disconnected = some "PC State: Disconnected"
end_reason failed = some "PC State: Failed"
end_reason closed = some "PC State: Closed"
end_reason _ = none

abbrev pub is_connected : PeerConnectionState → Bool
is_connected connected = true
is_connected _ = false

-- What the other callbacks of a peer's connection bring, without the states, on which only the log
-- output depends.
pub data Notice : Type 0 where
  ice_connection_state_change signaling_state_change : String → Notice
  data_channel_opened data_channel_closed : String → String → Notice

-- The bytes of "ping".
abbrev pub ping : DataChannelMessage
ping = b'p' ∷ b'i' ∷ b'n' ∷ b'g' ∷ []

module _ (net : IPeerConnection) where
  -- The loop of onHeartbeatTimer: connected objects are sent a ping.
  unfoldable pub ping_all : Map (Option net.Pc) → Map (Option net.Pc)
  ping_all [] = []
  ping_all ((peer, none) ∷ rest) = (peer, none) ∷ ping_all rest
  ping_all ((peer, some pc) ∷ rest) =
      (
        peer,
        some (
            if is_connected (net.get_connection_state pc)
            then (net.send_data pc "heartbeat" ping).0
            else pc),
      )
      ∷ ping_all rest

  -- Whether the map holds a connected object for the peer.
  unfoldable pub is_live : Map (Option net.Pc) → String → Bool
  is_live peers peer = elim (StringMap.find peer peers) [
    | none ↦ false
    | some none ↦ false
    | some (some pc) ↦ is_connected (net.get_connection_state pc)
  ]

  -- `peers_to_disconnect`: the live peers whose last heartbeat is older than the timeout.
  unfoldable pub overdue : Map (Option net.Pc) → ℕ → ℕ → Map ℕ → List String
  unfolding is_live
  overdue peers now timeout [] = []
  overdue peers now timeout ((peer, last) ∷ rest) =
      let others = overdue peers now timeout rest in
      if is_live peers peer
      then (if ltb timeout (now - last) then peer ∷ others else others)
      else others

module _ {net : IPeerConnection} {sig : ISignalingClient} where
  -- handlePeerIceConnectionStateChange, handlePeerSignalingStateChange, handlePeerDataChannelOpened
  -- and handlePeerDataChannelClosed, which look the peer up and log, for a peer that they find or not.
  abbrev pub handle_notice : Manager net sig → Notice → Manager net sig
  handle_notice m notice = m

  unfoldable handle_signaling_connected : Manager net sig → List Call
  handle_signaling_connected m = elim m.on_signaling_connected_handler [
    | none ↦ []
    | some handler ↦ signaling_connected handler ∷ []
  ]

  unfoldable handle_signaling_disconnected : Manager net sig → List Call
  handle_signaling_disconnected m = elim m.on_signaling_disconnected_handler [
    | none ↦ []
    | some handler ↦ signaling_disconnected handler "Signaling connection lost" ∷ []
  ]

  unfoldable handle_signaling_error : Manager net sig → String → List Call
  unfolding report_signaling_error
  handle_signaling_error m text = report_signaling_error m text

  -- `sendSignal`, or the error that there is no client.
  unfoldable pub send_signal :
      Manager net sig → SignalMessage → String → Manager net sig × List Call
  unfolding report_signaling_error
  send_signal m msg text = elim m.signaling_client [
    | none ↦ (m, report_signaling_error m text)
    | some client ↦ (record m { signaling_client = some (sig.send_signal client msg) }, [])
  ]

  unfoldable pub handle_peer_local_sdp_generated :
      Manager net sig → String → String → String → Manager net sig × List Call
  unfolding send_signal
  handle_peer_local_sdp_generated m peer sdp_type sdp =
      let msg = message (if sdp_type == "offer" then offer else answer) "client_dummy_id" peer in
      if StringMap.contains peer m.peer_connections
      then send_signal m (record msg { sdp = some sdp })
          "Signaling client not available to send SDP"
      else (m, [])

  unfoldable pub handle_peer_local_candidate_generated :
      Manager net sig → String → String → String → ℤ → Manager net sig × List Call
  unfolding send_signal
  handle_peer_local_candidate_generated m peer text mid index =
      let msg = message candidate "client_dummy_id" peer in
      if StringMap.contains peer m.peer_connections
      then send_signal m
          (record msg { candidate = some text; sdp_mid = some mid; sdp_mline_index = some index })
          "Signaling client not available to send candidate"
      else (m, [])

  unfoldable pub handle_peer_connection_state_change :
      Manager net sig → String → PeerConnectionState → Manager net sig × List Call
  unfolding destroy_peer_connection end_reason
  handle_peer_connection_state_change m peer state =
      if StringMap.contains peer m.peer_connections
      then (elim (end_reason state) [
        | some reason ↦ (
          (destroy_peer_connection m peer).0,
          elim m.on_peer_disconnected_handler [
            | none ↦ []
            | some handler ↦ peer_disconnected handler peer reason ∷ []
          ],
        )
        | none ↦ (
          m,
          if is_connected state
              then (elim m.on_peer_connected_handler [
                | none ↦ []
                | some handler ↦ peer_connected handler peer ∷ []
              ])
              else [],
        )
      ])
      else (m, [])

  -- Opened, closed, ICE and signaling-state events are only logged by the source.
  unfoldable pub handle_peer_data_channel_message :
      Manager net sig → String → String → DataChannelMessage → List Call
  handle_peer_data_channel_message m peer label bytes =
      if StringMap.contains peer m.peer_connections
      then (if label == "control" || label == "telemetry"
          then (elim m.on_data_channel_message_received_handler [
            | none ↦ []
            | some handler ↦ data_channel_message handler peer label bytes ∷ []
          ])
          else [])
      else []

  unfoldable pub handle_peer_error : Manager net sig → String → String → List Call
  unfolding report_peer_error
  handle_peer_error m peer text =
      if StringMap.contains peer m.peer_connections then report_peer_error m peer text else []

  unfoldable pub destroy_all : Manager net sig → List String → Manager net sig
  unfolding destroy_peer_connection
  destroy_all m [] = m
  destroy_all m (peer ∷ rest) = destroy_all (destroy_peer_connection m peer).0 rest

  -- `now` is the steady clock in milliseconds.
  -- The product is one of ints in the source, which is undefined where it does not fit 32 bits.
  unfoldable pub check_for_heartbeat_loss : Manager net sig → ℕ → Manager net sig
  unfolding overdue destroy_all
  check_for_heartbeat_loss m now = elim m.heartbeat_interval_ms [
    | negsuc n ↦ m
    | pos zero ↦ m
    | pos (suc n) ↦
        destroy_all m (overdue net m.peer_connections now (suc n * 3) m.last_heartbeat_rx_time)
  ]

  unfoldable pub on_heartbeat_timer : Manager net sig → ℕ → Manager net sig
  unfolding check_for_heartbeat_loss ping_all
  on_heartbeat_timer m now =
      let checked = check_for_heartbeat_loss m now in
      record checked { peer_connections = ping_all net checked.peer_connections }

  unfoldable handle_received_heartbeat : Manager net sig → String → ℕ → Manager net sig
  handle_received_heartbeat m peer now = elim m.heartbeat_interval_ms [
    | negsuc n ↦ m
    | pos zero ↦ m
    | pos (suc n) ↦ record m {
      last_heartbeat_rx_time = StringMap.insert peer now m.last_heartbeat_rx_time;
    }
  ]
