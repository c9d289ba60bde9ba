-- ===== src/Webrtc/Manager/Preserved.antt =====
-- Every operation of the manager keeps its maps sound.
use whl_air.Base.{String, ◌≡◌, ◌≢◌, Bool, false, Option, none, some, [], ◌∷◌, arith}
use whl_air.StringMap.{Map, find, insert, erase}
use whl_air.Webrtc.Interfaces.{IPeerConnection, ISignalingClient, DataChannelMessage}
use whl_air.Webrtc.Manager.{Manager, PendingRemoteCandidate}
use whl_air.Webrtc.Manager.Peers.{
  hold, get_or_create_peer_connection, destroy_peer_connection, disconnect_from_peer,
  send_data_channel_message, send_all, send_data_channel_message_to_all_peers,
}
use whl_air.Webrtc.Manager.Signals.{described, handle_leave, candidate_to}
use whl_air.Webrtc.Manager.PeerEvents.{ping_all}
use whl_air.Webrtc.Manager.Soundness.{
  IsSound, insert-HasNoNull, erase-HasNoNull, marked-IsBuffer, unmarked-IsBuffer, created-IsBuffer,
  erased-IsBuffer, pushed-IsBuffer, hold-IsSound,
}

module _ (net : IPeerConnection) where
  find-send_all :
      (label : String) (bytes : DataChannelMessage) (peers : Map (Option net.Pc)) (peer : String)
      → find peer peers ≢ some none
      → find peer (send_all net label bytes peers).0 ≢ some none
  unfolding find send_all
  find-send_all label bytes [] peer h = h
  find-send_all label bytes ((j, none) ∷ rest) peer h =
      ground (arith, find-send_all label bytes rest peer)
  find-send_all label bytes ((j, some pc) ∷ rest) peer h =
      ground (arith, find-send_all label bytes rest peer)

  pub find-ping_all :
      (peers : Map (Option net.Pc)) (peer : String)
      → find peer peers ≢ some none
      → find peer (ping_all net peers) ≢ some none
  unfolding find ping_all
  find-ping_all [] peer h = h
  find-ping_all ((j, none) ∷ rest) peer h = ground (arith, find-ping_all rest peer)
  find-ping_all ((j, some pc) ∷ rest) peer h = ground (arith, find-ping_all rest peer)

module _ {net : IPeerConnection} {sig : ISignalingClient} (m : Manager net sig)
    (s : IsSound m) where
  pub disconnect_from_peer-IsSound :
      (peer : String)
      → (next : Manager net sig) (b : Bool) → disconnect_from_peer m peer ≡ some (next, b)
      → IsSound next
  unfolding disconnect_from_peer
  disconnect_from_peer-IsSound peer next b e = grind (arith, hold-IsSound m s)

  pub send_data_channel_message-IsSound :
      (peer label : String) (bytes : DataChannelMessage)
      → IsSound (send_data_channel_message m peer label bytes).0
  unfolding send_data_channel_message
  send_data_channel_message-IsSound peer label bytes = grind (arith, hold-IsSound m s)

  pub send_data_channel_message_to_all_peers-IsSound :
      (label : String) (bytes : DataChannelMessage)
      → IsSound (send_data_channel_message_to_all_peers m label bytes).0
  unfolding send_data_channel_message_to_all_peers
  send_data_channel_message_to_all_peers-IsSound label bytes =
      let sent : IsSound
          (record m { peer_connections = (send_all net label bytes m.peer_connections).0 }) =
        record {
          no_null = record {
            at = λ peer. find-send_all net label bytes m.peer_connections peer (s.no_null.at peer);
          };
          buffer = s.buffer;
        } in
      ground (arith, sent)

  pub get_or_create-IsSound :
      (peer : String) (created : Option net.Pc)
      → IsSound (get_or_create_peer_connection m peer created).0
  unfolding get_or_create_peer_connection hold
  get_or_create-IsSound peer none = ground arith
  get_or_create-IsSound peer (some pc) =
      let fresh : IsSound (record (hold peer pc m) {
        remote_description_set = insert peer false m.remote_description_set;
        pending_remote_candidates = erase peer m.pending_remote_candidates;
      }) =
        record {
          no_null = insert-HasNoNull peer pc m.peer_connections s.no_null;
          buffer =
              created-IsBuffer peer m.remote_description_set m.pending_remote_candidates s.buffer;
        } in
      ground (arith, fresh)

  pub destroy_peer_connection-IsSound : (peer : String) → IsSound (destroy_peer_connection m peer).0
  unfolding destroy_peer_connection
  destroy_peer_connection-IsSound peer =
      let gone : IsSound (record m {
        last_heartbeat_rx_time = erase peer m.last_heartbeat_rx_time;
        reconnection_attempt_count = erase peer m.reconnection_attempt_count;
        remote_description_set = erase peer m.remote_description_set;
        pending_remote_candidates = erase peer m.pending_remote_candidates;
        peer_connections = erase peer m.peer_connections;
      }) =
        record {
          no_null = erase-HasNoNull peer m.peer_connections s.no_null;
          buffer =
              erased-IsBuffer peer m.remote_description_set m.pending_remote_candidates s.buffer;
        } in
      ground (arith, gone)

  pub described-IsSound : (peer : String) → IsSound (described m peer)
  unfolding described
  described-IsSound peer = record {
    no_null = s.no_null;
    buffer = marked-IsBuffer peer m.remote_description_set m.pending_remote_candidates s.buffer;
  }

  pub handle_leave-IsSound : (peer : String) → IsSound (handle_leave m peer).0
  unfolding handle_leave
  handle_leave-IsSound peer = grind (arith, insert-HasNoNull, erased-IsBuffer)

  pub candidate_to-IsSound :
      (peer : String) (pc : net.Pc) (c : PendingRemoteCandidate)
      → IsSound (candidate_to m peer pc c)
  unfolding candidate_to
  candidate_to-IsSound peer pc c =
      grind (arith, hold-IsSound m s, pushed-IsBuffer, unmarked-IsBuffer)
