-- ===== src/Webrtc/Manager/Frame.antt =====
-- The isolation of peers in webrtc/webrtc_manager.cc: an operation for one peer leaves what the manager
-- keeps for the others.
use whl_air.Base.{
  String, ◌≡◌, ◌≢◌, refl, ◌∙◌, eq_iff, true, false, Option, none, some, [], ◌∷◌, ◌++◌, arith,
}
use whl_air.StringMap.{Map, find, insert, erase, find-insert, find-erase}
use whl_air.Signaling.Message.{
  SignalMessage, MessageType, unknown, join, leave, offer, answer, candidate,
}
use whl_air.Webrtc.Interfaces.{
  IPeerConnection, ISignalingClient, DataChannelMessage, PeerConnectionState,
}
use whl_air.Webrtc.Manager.{Manager, PendingRemoteCandidate}
use whl_air.Webrtc.Manager.Peers.{
  hold, connect_to_peer, send_data_channel_message, get_or_create_peer_connection,
  destroy_peer_connection,
}
use whl_air.Webrtc.Manager.Signals.{
  described, pending_of, handle_leave, offer_to, answer_to, candidate_to, candidate_for,
  candidate_of, dispatch, handle_signaling_message,
}
use whl_air.Webrtc.Manager.PeerEvents.{handle_peer_connection_state_change}

module _ {A : Type 0} where
  find-insert_other :
      (peer j : String) (a : A) (m : Map A) → peer ≢ j → find j (insert peer a m) ≡ find j m
  find-insert_other peer j a m apart = ground (arith, eq_iff peer j, find-insert peer j a m)

  find-erase_other : (peer j : String) (m : Map A) → peer ≢ j → find j (erase peer m) ≡ find j m
  find-erase_other peer j m apart = ground (arith, eq_iff peer j, find-erase peer j m)

-- Both managers keep the same for the peer.
pub record IsSameFor {net : IPeerConnection} {sig : ISignalingClient} (j : String)
    (m n : Manager net sig) : Type 0 where
  pub object : find j n.peer_connections ≡ find j m.peer_connections
  pub mark : find j n.remote_description_set ≡ find j m.remote_description_set
  pub buffer : find j n.pending_remote_candidates ≡ find j m.pending_remote_candidates
  pub heartbeat : find j n.last_heartbeat_rx_time ≡ find j m.last_heartbeat_rx_time

module _ {net : IPeerConnection} {sig : ISignalingClient} (j : String) where
  pub same : (m : Manager net sig) → IsSameFor j m m
  same m = record { object = refl; mark = refl; buffer = refl; heartbeat = refl }

  pub after : (m n o : Manager net sig) → IsSameFor j m n → IsSameFor j n o → IsSameFor j m o
  after m n o p q = record {
    object = q.object ∙ p.object;
    mark = q.mark ∙ p.mark;
    buffer = q.buffer ∙ p.buffer;
    heartbeat = q.heartbeat ∙ p.heartbeat;
  }

module _ {net : IPeerConnection} {sig : ISignalingClient} (m : Manager net sig) (peer j : String)
    (apart : peer ≢ j) where
  hold-same : (pc : net.Pc) → IsSameFor j m (hold peer pc m)
  unfolding hold
  hold-same pc = record {
    object = find-insert_other peer j (some pc) m.peer_connections apart;
    mark = refl;
    buffer = refl;
    heartbeat = refl;
  }

  described-same : IsSameFor j m (described m peer)
  unfolding described
  described-same = record {
    object = refl;
    mark = find-insert_other peer j true m.remote_description_set apart;
    buffer = find-erase_other peer j m.pending_remote_candidates apart;
    heartbeat = refl;
  }

  get_or_create-same :
      (created : Option net.Pc) → IsSameFor j m (get_or_create_peer_connection m peer created).0
  unfolding get_or_create_peer_connection hold
  get_or_create-same none = ground (arith, same j m)
  get_or_create-same (some pc) =
      let fresh : IsSameFor j m (record (hold peer pc m) {
        remote_description_set = insert peer false m.remote_description_set;
        pending_remote_candidates = erase peer m.pending_remote_candidates;
      }) =
        record {
          object = find-insert_other peer j (some pc) m.peer_connections apart;
          mark = find-insert_other peer j false m.remote_description_set apart;
          buffer = find-erase_other peer j m.pending_remote_candidates apart;
          heartbeat = refl;
        } in
      ground (arith, fresh, same j m)

  pub destroy-same : IsSameFor j m (destroy_peer_connection m peer).0
  unfolding destroy_peer_connection
  destroy-same =
      let gone : IsSameFor j m (record m {
        last_heartbeat_rx_time = erase peer m.last_heartbeat_rx_time;
        reconnection_attempt_count = erase peer m.reconnection_attempt_count;
        remote_description_set = erase peer m.remote_description_set;
        pending_remote_candidates = erase peer m.pending_remote_candidates;
        peer_connections = erase peer m.peer_connections;
      }) =
        record {
          object = find-erase_other peer j m.peer_connections apart;
          mark = find-erase_other peer j m.remote_description_set apart;
          buffer = find-erase_other peer j m.pending_remote_candidates apart;
          heartbeat = find-erase_other peer j m.last_heartbeat_rx_time apart;
        } in
      ground (arith, gone, same j m)

  leave-same : IsSameFor j m (handle_leave m peer).0
  unfolding handle_leave hold
  leave-same =
      let left : (pc : net.Pc)
          → IsSameFor j m (record (hold peer (net.close pc) m) {
            remote_description_set = erase peer m.remote_description_set;
            pending_remote_candidates = erase peer m.pending_remote_candidates;
          }) =
        λ pc. record {
          object = find-insert_other peer j (some (net.close pc)) m.peer_connections apart;
          mark = find-erase_other peer j m.remote_description_set apart;
          buffer = find-erase_other peer j m.pending_remote_candidates apart;
          heartbeat = refl;
        } in
      grind (arith, same j m, left)

  candidate_to-same :
      (pc : net.Pc) (c : PendingRemoteCandidate) → IsSameFor j m (candidate_to m peer pc c)
  unfolding candidate_to
  candidate_to-same pc c =
      let rest = pending_of m peer ++ c ∷ [] in
      let buffered : IsSameFor j m
          (record m { pending_remote_candidates = insert peer rest m.pending_remote_candidates }) =
        record {
          object = refl;
          mark = refl;
          buffer = find-insert_other peer j rest m.pending_remote_candidates apart;
          heartbeat = refl;
        } in
      let unmarked : IsSameFor j m (record m {
        pending_remote_candidates = insert peer rest m.pending_remote_candidates;
        remote_description_set = insert peer false m.remote_description_set;
      }) =
        record {
          object = refl;
          mark = find-insert_other peer j false m.remote_description_set apart;
          buffer = find-insert_other peer j rest m.pending_remote_candidates apart;
          heartbeat = refl;
        } in
      let added = (net.add_remote_candidate pc c.candidate c.sdp_mid c.sdp_mline_index).0 in
      ground (arith, buffered, unmarked, hold-same added)

  connect-same : (created : Option net.Pc) → IsSameFor j m (connect_to_peer m peer created).0
  unfolding connect_to_peer
  connect-same created = grind (arith, same j m, hold-same)

  send-same :
      (label : String) (bytes : DataChannelMessage)
      → IsSameFor j m (send_data_channel_message m peer label bytes).0
  unfolding send_data_channel_message
  send-same label bytes = grind (arith, same j m, hold-same)

  change-same :
      (state : PeerConnectionState)
      → IsSameFor j m (handle_peer_connection_state_change m peer state).0
  unfolding handle_peer_connection_state_change
  change-same state = ground (arith, same j m, destroy-same)

module _ {net : IPeerConnection} {sig : ISignalingClient} (peer j : String) (apart : peer ≢ j) where
  offer-same :
      (m : Manager net sig) (pc : Option net.Pc) (sdp : Option String)
      → IsSameFor j m (offer_to m peer pc sdp).0
  unfolding offer_to
  offer-same m (some pc) (some sdp) =
      let both : (x : net.Pc) → IsSameFor j m (hold peer x (described m peer)) = λ x.
        after j m (described m peer) _ (described-same m peer j apart)
          (hold-same (described m peer) peer j apart x) in
      grind (arith, both, hold-same m peer j apart)
  offer-same m _ _ = same j m

  answer-same :
      (m : Manager net sig) (pc : Option net.Pc) (sdp : Option String)
      → IsSameFor j m (answer_to m peer pc sdp).0
  unfolding answer_to
  answer-same m (some pc) (some sdp) =
      let both : (x : net.Pc) → IsSameFor j m (hold peer x (described m peer)) = λ x.
        after j m (described m peer) _ (described-same m peer j apart)
          (hold-same (described m peer) peer j apart x) in
      grind (arith, both, hold-same m peer j apart)
  answer-same m _ _ = same j m

  candidate-same :
      (m : Manager net sig) (pc : Option net.Pc) (c : Option PendingRemoteCandidate)
      → IsSameFor j m (candidate_for m peer pc c).0
  unfolding candidate_for
  candidate-same m (some pc) (some c) = candidate_to-same m peer j apart pc c
  candidate-same m _ _ = same j m

module _ {net : IPeerConnection} {sig : ISignalingClient} (m : Manager net sig)
    (msg : SignalMessage) (created : Option net.Pc) (j : String) (apart : msg.from ≢ j) where
  dispatch-same : (kind : MessageType) → IsSameFor j m (dispatch kind m msg created).0
  unfolding dispatch
  dispatch-same join = same j m
  dispatch-same leave = leave-same m msg.from j apart
  dispatch-same offer =
      after j m _ _ (get_or_create-same m msg.from j apart created)
        (offer-same msg.from j apart _ _ msg.sdp)
  dispatch-same answer =
      after j m _ _ (get_or_create-same m msg.from j apart created)
        (answer-same msg.from j apart _ _ msg.sdp)
  dispatch-same candidate =
      after j m _ _ (get_or_create-same m msg.from j apart created)
        (candidate-same msg.from j apart _ _ (candidate_of msg))
  dispatch-same unknown = same j m

  -- A signaling message leaves all that the manager keeps for every peer but its sender: the peer
  -- connection, the description mark, the buffered candidates and the heartbeat time.
  pub message_is_local : IsSameFor j m (handle_signaling_message m msg created).0
  unfolding handle_signaling_message
  message_is_local = dispatch-same msg.type
