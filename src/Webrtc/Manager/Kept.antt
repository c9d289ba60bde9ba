-- ===== src/Webrtc/Manager/Kept.antt =====
-- The operations of webrtc/webrtc_manager.cc that leave the application's handlers as they are.
use whl_air.Base.{ℕ, zero, suc, ◌*◌, String, ◌≡◌, refl, ◌∙◌, Option, some, List, [], ◌∷◌, arith}
use whl_air.Base.Int.{ℤ, pos, negsuc}
use whl_air.Signaling.Message.{
  SignalMessage, MessageType, unknown, join, leave, offer, answer, candidate,
}
use whl_air.Webrtc.Interfaces.{IPeerConnection, ISignalingClient, Handler}
use whl_air.Webrtc.Manager.{Manager, PendingRemoteCandidate}
use whl_air.Webrtc.Manager.Peers.{
  hold, disconnect_from_peer, get_or_create_peer_connection, destroy_peer_connection,
}
use whl_air.Webrtc.Manager.Signals.{
  described, handle_leave, offer_to, answer_to, candidate_to, candidate_for, candidate_of, dispatch,
}
use whl_air.Webrtc.Manager.PeerEvents.{destroy_all, check_for_heartbeat_loss, overdue}
use whl_air.Webrtc.Manager.Events.{unless_fault}

-- The seven handlers of a manager.
pub record Handlers : Type 0 where
  pub connected : Option Handler
  pub disconnected : Option Handler
  pub failed : Option Handler
  pub peer_in : Option Handler
  pub peer_out : Option Handler
  pub peer_failed : Option Handler
  pub bytes : Option Handler

module _ {net : IPeerConnection} {sig : ISignalingClient} where
  abbrev pub handlers_of : Manager net sig → Handlers
  handlers_of m = record {
    connected = m.on_signaling_connected_handler;
    disconnected = m.on_signaling_disconnected_handler;
    failed = m.on_signaling_error_handler;
    peer_in = m.on_peer_connected_handler;
    peer_out = m.on_peer_disconnected_handler;
    peer_failed = m.on_peer_error_handler;
    bytes = m.on_data_channel_message_received_handler;
  }

  pub get_or_create-handlers :
      (m : Manager net sig) (peer : String) (created : Option net.Pc)
      → handlers_of (get_or_create_peer_connection m peer created).0 ≡ handlers_of m
  unfolding get_or_create_peer_connection hold
  get_or_create-handlers m peer created = ground arith

  pub leave-handlers :
      (m : Manager net sig) (peer : String) → handlers_of (handle_leave m peer).0 ≡ handlers_of m
  unfolding handle_leave hold
  leave-handlers m peer = ground arith

  pub offer-handlers :
      (m : Manager net sig) (peer : String) (pc : Option net.Pc) (sdp : Option String)
      → handlers_of (offer_to m peer pc sdp).0 ≡ handlers_of m
  unfolding offer_to hold described
  offer-handlers m peer (some pc) (some sdp) = ground arith
  offer-handlers m peer _ _ = refl

  pub answer-handlers :
      (m : Manager net sig) (peer : String) (pc : Option net.Pc) (sdp : Option String)
      → handlers_of (answer_to m peer pc sdp).0 ≡ handlers_of m
  unfolding answer_to hold described
  answer-handlers m peer (some pc) (some sdp) = ground arith
  answer-handlers m peer _ _ = refl

  pub candidate-handlers :
      (m : Manager net sig) (peer : String) (pc : Option net.Pc) (c : Option PendingRemoteCandidate)
      → handlers_of (candidate_for m peer pc c).0 ≡ handlers_of m
  unfolding candidate_for candidate_to hold
  candidate-handlers m peer (some pc) (some c) = ground arith
  candidate-handlers m peer _ _ = refl

  pub dispatch-handlers :
      (m : Manager net sig) (kind : MessageType) (msg : SignalMessage) (created : Option net.Pc)
      → handlers_of (dispatch kind m msg created).0 ≡ handlers_of m
  unfolding dispatch
  dispatch-handlers m join msg created = refl
  dispatch-handlers m leave msg created = leave-handlers m msg.from
  dispatch-handlers m offer msg created =
      offer-handlers _ msg.from _ msg.sdp ∙ get_or_create-handlers m msg.from created
  dispatch-handlers m answer msg created =
      answer-handlers _ msg.from _ msg.sdp ∙ get_or_create-handlers m msg.from created
  dispatch-handlers m candidate msg created =
      candidate-handlers _ msg.from _ (candidate_of msg) ∙ get_or_create-handlers m msg.from created
  dispatch-handlers m unknown msg created = refl

  pub disconnect-handlers :
      (m : Manager net sig) (peer : String)
      → handlers_of (unless_fault m (disconnect_from_peer m peer)) ≡ handlers_of m
  unfolding disconnect_from_peer hold
  disconnect-handlers m peer = ground arith

  pub destroy-handlers :
      (m : Manager net sig) (peer : String)
      → handlers_of (destroy_peer_connection m peer).0 ≡ handlers_of m
  unfolding destroy_peer_connection
  destroy-handlers m peer = ground arith

  pub destroy_all-handlers :
      (m : Manager net sig) (peers : List String)
      → handlers_of (destroy_all m peers) ≡ handlers_of m
  unfolding destroy_all
  destroy_all-handlers m [] = refl
  destroy_all-handlers m (peer ∷ rest) =
      destroy_all-handlers (destroy_peer_connection m peer).0 rest ∙ destroy-handlers m peer

  pub check-handlers :
      (m : Manager net sig) (now : ℕ) → handlers_of (check_for_heartbeat_loss m now) ≡ handlers_of m
  unfolding check_for_heartbeat_loss
  check-handlers m now = timed m.heartbeat_interval_ms
    where
      timed :
          (interval : ℤ)
          → handlers_of (elim interval [
            | negsuc n ↦ m
            | pos zero ↦ m
            | pos (suc n) ↦
                destroy_all m
                  (overdue net m.peer_connections now (suc n * 3) m.last_heartbeat_rx_time)
          ])
            ≡ handlers_of m
      timed (negsuc n) = refl
      timed (pos zero) = refl
      timed (pos (suc n)) =
          destroy_all-handlers m
            (overdue net m.peer_connections now (suc n * 3) m.last_heartbeat_rx_time)
