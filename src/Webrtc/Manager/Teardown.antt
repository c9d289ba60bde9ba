-- ===== src/Webrtc/Manager/Teardown.antt =====
-- The end of a peer connection and of the manager in webrtc/webrtc_manager.cc: stop, the states in
-- which nothing can be started, and handlePeerConnectionStateChange.
use whl_air.Base.{
  String, ◌≡◌, refl, eq_iff, subst⁻¹, Bool, true, false, Option, none, some, List, [], ◌∷◌, arith,
}
use whl_air.StringMap
use whl_air.StringMap.{Map, find, contains, find-erase}
use whl_air.Webrtc.Interfaces.{
  IPeerConnection, ISignalingClient, PeerConnectionState, disconnected, failed, closed,
  DataChannelMessage, Call, peer_disconnected,
}
use whl_air.Webrtc.Manager.{Manager, initialized, stopped}
use whl_air.Webrtc.Manager.Lifecycle.{init, start, stop, is_uninitialized}
use whl_air.Webrtc.Manager.Peers.{
  connect_to_peer, send_data_channel_message, send_data_channel_message_to_all_peers,
  destroy_peer_connection,
}
use whl_air.Webrtc.Manager.PeerEvents.{handle_peer_connection_state_change, end_reason}

-- The manager refuses everything that an application asks for but disconnectFromPeer, and stays as it
-- is.
pub record IsRefusing {net : IPeerConnection} {sig : ISignalingClient} (m : Manager net sig)
    : Type 0 where
  pub no_init : init m ≡ (m, false)
  pub no_start : start m ≡ (m, false)
  pub no_stop : stop m ≡ (m, [])
  pub no_connect :
      (peer : String) (created : Option net.Pc) → connect_to_peer m peer created ≡ (m, false)
  pub no_send :
      (peer label : String) (bytes : DataChannelMessage)
      → send_data_channel_message m peer label bytes ≡ (m, false)
  pub no_broadcast :
      (label : String) (bytes : DataChannelMessage)
      → send_data_channel_message_to_all_peers m label bytes ≡ (m, false)

module _ {net : IPeerConnection} {sig : ISignalingClient} (m : Manager net sig) where
  pub stopped-IsRefusing : m.state ≡ stopped → IsRefusing m
  unfolding init start stop connect_to_peer send_data_channel_message
      send_data_channel_message_to_all_peers
  stopped-IsRefusing e = record {
    no_init = ground arith;
    no_start = ground arith;
    no_stop = ground arith;
    no_connect = λ peer created. ground arith;
    no_send = λ peer label bytes. ground arith;
    no_broadcast = λ label bytes. ground arith;
  }

  init_taken :
      is_uninitialized m.state ≡ true
      → init m ≡ (record m { signaling_client = none; state = initialized }, true)
  unfolding init
  init_taken h = ground arith

module _ {net : IPeerConnection} {sig : ISignalingClient} (m : Manager net sig) where
  -- init leaves no signaling client, so the start that follows it fails and leaves the manager
  -- STOPPED, for good.
  start-init :
      is_uninitialized m.state ≡ true
      → (init m).1 ≡ true
        × (start (init m).0).1 ≡ false
        × (start (init m).0).0.state ≡ stopped
        × IsRefusing (start (init m).0).0
  unfolding start
  start-init h =
      let fresh : Manager net sig = record m { signaling_client = none; state = initialized } in
      subst⁻¹
        (λ (r : Manager net sig × Bool).
          r.1 ≡ true
          × (start r.0).1 ≡ false
          × (start r.0).0.state ≡ stopped
          × IsRefusing (start r.0).0)
        (init_taken m h) (refl, refl, refl, stopped-IsRefusing (start fresh).0 refl)

-- Nothing is left of a peer.
pub record IsForgotten {net : IPeerConnection} {sig : ISignalingClient} (m : Manager net sig)
    (peer : String) : Type 0 where
  pub object : find peer m.peer_connections ≡ none
  pub heartbeat : find peer m.last_heartbeat_rx_time ≡ none
  pub attempts : find peer m.reconnection_attempt_count ≡ none
  pub mark : find peer m.remote_description_set ≡ none
  pub buffer : find peer m.pending_remote_candidates ≡ none

module _ {A : Type 0} where
  contains-find :
      (peer : String) (peers : Map A) (a : A)
      → find peer peers ≡ some a
      → contains peer peers ≡ true
  unfolding find contains
  contains-find peer [] a e = cc
  contains-find peer ((j, b) ∷ rest) a e = ground (arith, contains-find peer rest a)

  pub contains-none :
      (peer : String) (peers : Map A) → find peer peers ≡ none → contains peer peers ≡ false
  unfolding find contains
  contains-none peer [] e = refl
  contains-none peer ((j, b) ∷ rest) e = ground (arith, contains-none peer rest)

  erased-find : (peer : String) (peers : Map A) → find peer (StringMap.erase peer peers) ≡ none
  erased-find peer peers = ground (arith, eq_iff peer peer, find-erase peer peer peers)

module _ {net : IPeerConnection} {sig : ISignalingClient} (m : Manager net sig)
    (peer : String) where
  pub destroy-IsForgotten :
      (held : Option net.Pc)
      → find peer m.peer_connections ≡ some held
      → IsForgotten (destroy_peer_connection m peer).0 peer
  unfolding destroy_peer_connection
  destroy-IsForgotten held e =
      let gone : IsForgotten
          (record m {
            last_heartbeat_rx_time = StringMap.erase peer m.last_heartbeat_rx_time;
            reconnection_attempt_count = StringMap.erase peer m.reconnection_attempt_count;
            remote_description_set = StringMap.erase peer m.remote_description_set;
            pending_remote_candidates = StringMap.erase peer m.pending_remote_candidates;
            peer_connections = StringMap.erase peer m.peer_connections;
          })
          peer =
        record {
          object = erased-find peer m.peer_connections;
          heartbeat = erased-find peer m.last_heartbeat_rx_time;
          attempts = erased-find peer m.reconnection_attempt_count;
          mark = erased-find peer m.remote_description_set;
          buffer = erased-find peer m.pending_remote_candidates;
        } in
      ground (arith, gone)

  -- The report of the end of a connection, where the application has registered for it.
  abbrev pub disconnected_report : String → List Call
  disconnected_report reason = elim m.on_peer_disconnected_handler [
    | none ↦ []
    | some handler ↦ peer_disconnected handler peer reason ∷ []
  ]

  forgotten-silent :
      (state : PeerConnectionState)
      → IsForgotten m peer
      → handle_peer_connection_state_change m peer state ≡ (m, [])
  unfolding handle_peer_connection_state_change
  forgotten-silent state f = ground (arith, contains-none peer m.peer_connections f.object)

  change_taken :
      (state : PeerConnectionState) (reason : String) (held : Option net.Pc)
      → end_reason state ≡ some reason
      → find peer m.peer_connections ≡ some held
      → handle_peer_connection_state_change m peer state
        ≡ ((destroy_peer_connection m peer).0, disconnected_report reason)
  unfolding handle_peer_connection_state_change
  change_taken state reason held e h = ground (arith, contains-find peer m.peer_connections held h)

module _ {net : IPeerConnection} {sig : ISignalingClient} (m : Manager net sig)
    (peer : String) where
  -- Of a change to the state: nothing is left of the peer, the report has the reason, and a later
  -- change is silent.
  pub IsEnded : PeerConnectionState → PeerConnectionState → String → Type 0
  IsEnded later state reason =
      let (next, calls) = handle_peer_connection_state_change m peer state in
      IsForgotten next peer
      × (calls ≡ disconnected_report m peer reason)
      × (handle_peer_connection_state_change next peer later ≡ (next, []))

  change-ends :
      (state later : PeerConnectionState) (reason : String) (held : Option net.Pc)
      → end_reason state ≡ some reason
      → find peer m.peer_connections ≡ some held
      → IsEnded later state reason
  unfolding IsEnded
  change-ends state later reason held e h =
      let gone = destroy-IsForgotten m peer held h in
      subst⁻¹
        (λ (r : Manager net sig × List Call).
          IsForgotten r.0 peer
          × (r.1 ≡ disconnected_report m peer reason)
          × (handle_peer_connection_state_change r.0 peer later ≡ (r.0, [])))
        (change_taken m peer state reason held e h)
        (gone, refl, forgotten-silent (destroy_peer_connection m peer).0 peer later gone)

  -- A change of a held peer's connection to DISCONNECTED, to FAILED or to CLOSED removes all that the
  -- manager knows of the peer and reports the end of the connection to the application once, with the
  -- reason "PC State: Disconnected", "PC State: Failed" or "PC State: Closed": after it, a change to
  -- any state does and reports nothing.
  pub change-IsEnded :
      (later : PeerConnectionState) (held : Option net.Pc)
      → find peer m.peer_connections ≡ some held
      → IsEnded later disconnected "PC State: Disconnected"
        × IsEnded later failed "PC State: Failed"
        × IsEnded later closed "PC State: Closed"
  unfolding end_reason
  change-IsEnded later held h = (
    change-ends disconnected later "PC State: Disconnected" held refl h,
    change-ends failed later "PC State: Failed" held refl h,
    change-ends closed later "PC State: Closed" held refl h,
  )
