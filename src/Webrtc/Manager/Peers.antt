-- ===== src/Webrtc/Manager/Peers.antt =====
-- webrtc/webrtc_manager.cc: the methods that an application calls for a peer, and the helpers that
-- make and destroy the peer connections. createPeerConnection is virtual and returns null here; an
-- operation that calls it takes what it returns as the argument `created`.
use whl_air.Base.{String, Bool, true, false, Option, none, some, List, [], ◌∷◌, ◌||◌, if◌then◌else◌}
use whl_air.StringMap
use whl_air.StringMap.{Map}
use whl_air.Webrtc.Interfaces.{IPeerConnection, ISignalingClient, DataChannelMessage}
use whl_air.Webrtc.Manager.{Manager}
use whl_air.Webrtc.Manager.Lifecycle.{is_running}

module _ (net : IPeerConnection) where
  -- The skeleton's factory method.
  unfoldable create_peer_connection : String → Option net.Pc
  create_peer_connection peer = none

  -- The loop over `peerConnections_`: the objects afterwards, and `any_sent`.
  unfoldable pub send_all :
      String → DataChannelMessage → Map (Option net.Pc) → Map (Option net.Pc) × Bool
  send_all label message [] = ([], false)
  send_all label message ((peer, none) ∷ rest) =
      let (others, any) = send_all label message rest in ((peer, none) ∷ others, any)
  send_all label message ((peer, some pc) ∷ rest) =
      let (others, any) = send_all label message rest in
      let (after, sent) = net.send_data pc label message in
      ((peer, some after) ∷ others, sent || any)

module _ {net : IPeerConnection} {sig : ISignalingClient} where
  -- `peerConnections_[peer_id]` holds this object from now on.
  unfoldable pub hold : String → net.Pc → Manager net sig → Manager net sig
  hold peer pc m = record m {
    peer_connections = StringMap.insert peer (some pc) m.peer_connections;
  }

  unfoldable pub connect_to_peer : Manager net sig → String → Option net.Pc → Manager net sig × Bool
  unfolding hold
  connect_to_peer m peer created =
      if is_running m.state
      then (if StringMap.contains peer m.peer_connections then (m, true) else elim created [
        | none ↦ (m, false)
        | some pc ↦ (hold peer (net.create_offer pc).0 m, true)
      ])
      else (m, false)

  -- `none` is a call through a null pointer.
  unfoldable pub disconnect_from_peer : Manager net sig → String → Option (Manager net sig × Bool)
  unfolding hold
  disconnect_from_peer m peer = elim (StringMap.find peer m.peer_connections) [
    | none ↦ some (m, false)
    | some none ↦ none
    | some (some pc) ↦ some (hold peer (net.close pc) m, true)
  ]

  unfoldable pub send_data_channel_message :
      Manager net sig → String → String → DataChannelMessage → Manager net sig × Bool
  unfolding hold
  send_data_channel_message m peer label message =
      if is_running m.state
      then (elim (StringMap.find peer m.peer_connections) [
        | none ↦ (m, false)
        | some none ↦ (m, false)
        | some (some pc) ↦
            (hold peer (net.send_data pc label message).0 m, (net.send_data pc label message).1)
      ])
      else (m, false)

  unfoldable pub send_data_channel_message_to_all_peers :
      Manager net sig → String → DataChannelMessage → Manager net sig × Bool
  unfolding send_all
  send_data_channel_message_to_all_peers m label message =
      let (others, any) = send_all net label message m.peer_connections in
      if is_running m.state then (record m { peer_connections = others }, any) else (m, false)

  -- With the raw pointer that is returned, null or an object.
  unfoldable pub get_or_create_peer_connection :
      Manager net sig → String → Option net.Pc → Manager net sig × Option net.Pc
  unfolding hold
  get_or_create_peer_connection m peer created = elim (StringMap.find peer m.peer_connections) [
    | some held ↦ (m, held)
    | none ↦ elim created [
      | none ↦ (m, none)
      | some pc ↦ (
        record (hold peer pc m) {
          remote_description_set = StringMap.insert peer false m.remote_description_set;
          pending_remote_candidates = StringMap.erase peer m.pending_remote_candidates;
        },
        some pc,
      )
    ]
  ]

  -- With the object that is destroyed, if there is one, in the state in which it is.
  unfoldable pub destroy_peer_connection : Manager net sig → String → Manager net sig × List net.Pc
  destroy_peer_connection m peer = elim (StringMap.find peer m.peer_connections) [
    | none ↦ (m, [])
    | some held ↦ (
      record m {
        last_heartbeat_rx_time = StringMap.erase peer m.last_heartbeat_rx_time;
        reconnection_attempt_count = StringMap.erase peer m.reconnection_attempt_count;
        remote_description_set = StringMap.erase peer m.remote_description_set;
        pending_remote_candidates = StringMap.erase peer m.pending_remote_candidates;
        peer_connections = StringMap.erase peer m.peer_connections;
      },
      elim held [ none ↦ [] | some pc ↦ net.close pc ∷ [] ],
    )
  ]
