-- ===== src/Webrtc/Manager/Heartbeats.antt =====
-- The heartbeat logic of webrtc/webrtc_manager.cc over whole histories: what checkForHeartbeatLoss
-- finds in `lastHeartbeatRxTime_`.
use whl_air.Base.{ℕ, String, ◌≡◌, refl, ap, subst⁻¹, ◌∙◌, Option, some, List, [], ◌∷◌, arith}
use whl_air.StringMap
use whl_air.StringMap.{Map, erase}
use whl_air.Signaling.Message.{
  SignalMessage, MessageType, unknown, join, leave, offer, answer, candidate,
}
use whl_air.Webrtc.Interfaces.{IPeerConnection, ISignalingClient}
use whl_air.Webrtc.Manager.{Manager, PendingRemoteCandidate, new}
use whl_air.Webrtc.Manager.Lifecycle.{
  init_begin, init_locked, start_begin, start_locked, stop_begin, stop_locked,
}
use whl_air.Webrtc.Manager.Peers.{
  hold, connect_to_peer, disconnect_from_peer, send_data_channel_message,
  send_data_channel_message_to_all_peers, get_or_create_peer_connection, destroy_peer_connection,
}
use whl_air.Webrtc.Manager.Signals.{
  described, handle_leave, offer_to, answer_to, candidate_to, candidate_for, candidate_of, dispatch,
  handle_signaling_message,
}
use whl_air.Webrtc.Manager.PeerEvents.{
  handle_peer_local_sdp_generated, handle_peer_local_candidate_generated,
  handle_peer_connection_state_change, destroy_all, check_for_heartbeat_loss, on_heartbeat_timer,
  send_signal, overdue,
}
use whl_air.Webrtc.Manager.Handlers.{Slot, register, on_signaling_connected}
use whl_air.Webrtc.Manager.Events.{
  Event, init_begins, init_ends, start_begins, start_ends, stop_begins, stop_ends, registers,
  connects, disconnects, sends, broadcasts, receives, sdp_generated, candidate_generated,
  state_changed, notices, heartbeat_timer, drifts, wires, unless_fault, step, run,
}

module _ {net : IPeerConnection} {sig : ISignalingClient} where
  -- The operations that record no heartbeat.
  get_or_create-heartbeats :
      (m : Manager net sig) (peer : String) (created : Option net.Pc)
      → (get_or_create_peer_connection m peer created).0.last_heartbeat_rx_time
        ≡ m.last_heartbeat_rx_time
  unfolding get_or_create_peer_connection hold
  get_or_create-heartbeats m peer created = ground arith

  leave-heartbeats :
      (m : Manager net sig) (peer : String)
      → (handle_leave m peer).0.last_heartbeat_rx_time ≡ m.last_heartbeat_rx_time
  unfolding handle_leave hold
  leave-heartbeats m peer = ground arith

  offer-heartbeats :
      (m : Manager net sig) (peer : String) (pc : Option net.Pc) (sdp : Option String)
      → (offer_to m peer pc sdp).0.last_heartbeat_rx_time ≡ m.last_heartbeat_rx_time
  unfolding offer_to hold described
  offer-heartbeats m peer (some pc) (some sdp) = ground arith
  offer-heartbeats m peer _ _ = refl

  answer-heartbeats :
      (m : Manager net sig) (peer : String) (pc : Option net.Pc) (sdp : Option String)
      → (answer_to m peer pc sdp).0.last_heartbeat_rx_time ≡ m.last_heartbeat_rx_time
  unfolding answer_to hold described
  answer-heartbeats m peer (some pc) (some sdp) = ground arith
  answer-heartbeats m peer _ _ = refl

  candidate-heartbeats :
      (m : Manager net sig) (peer : String) (pc : Option net.Pc) (c : Option PendingRemoteCandidate)
      → (candidate_for m peer pc c).0.last_heartbeat_rx_time ≡ m.last_heartbeat_rx_time
  unfolding candidate_for candidate_to hold
  candidate-heartbeats m peer (some pc) (some c) = ground arith
  candidate-heartbeats m peer _ _ = refl

  dispatch-heartbeats :
      (m : Manager net sig) (kind : MessageType) (msg : SignalMessage) (created : Option net.Pc)
      → (dispatch kind m msg created).0.last_heartbeat_rx_time ≡ m.last_heartbeat_rx_time
  unfolding dispatch
  dispatch-heartbeats m join msg created = refl
  dispatch-heartbeats m leave msg created = leave-heartbeats m msg.from
  dispatch-heartbeats m offer msg created =
      offer-heartbeats _ msg.from _ msg.sdp ∙ get_or_create-heartbeats m msg.from created
  dispatch-heartbeats m answer msg created =
      answer-heartbeats _ msg.from _ msg.sdp ∙ get_or_create-heartbeats m msg.from created
  dispatch-heartbeats m candidate msg created =
      candidate-heartbeats _ msg.from _ (candidate_of msg)
      ∙ get_or_create-heartbeats m msg.from created
  dispatch-heartbeats m unknown msg created = refl

  register-heartbeats :
      (m : Manager net sig) (slot : Slot) (handler : Option ℕ)
      → (register slot m handler).last_heartbeat_rx_time ≡ m.last_heartbeat_rx_time
  unfolding register
  register-heartbeats m on_signaling_connected handler = refl
  register-heartbeats m _ handler = refl

  disconnect-heartbeats :
      (m : Manager net sig) (peer : String)
      → (unless_fault m (disconnect_from_peer m peer)).last_heartbeat_rx_time
        ≡ m.last_heartbeat_rx_time
  unfolding disconnect_from_peer hold
  disconnect-heartbeats m peer = ground arith

module _ {net : IPeerConnection} {sig : ISignalingClient} (m : Manager net sig)
    (unheard : m.last_heartbeat_rx_time ≡ []) where
  overdue-unheard :
      (now timeout : ℕ)
      → destroy_all m (overdue net m.peer_connections now timeout m.last_heartbeat_rx_time) ≡ m
  unfolding overdue destroy_all
  overdue-unheard now timeout =
      subst⁻¹ (λ heard. destroy_all m (overdue net m.peer_connections now timeout heard) ≡ m)
        unheard refl

  check-unheard : (now : ℕ) → check_for_heartbeat_loss m now ≡ m
  unfolding check_for_heartbeat_loss
  check-unheard now = ground (arith, overdue-unheard now)

  destroy-unheard : (peer : String) → (destroy_peer_connection m peer).0.last_heartbeat_rx_time ≡ []
  unfolding destroy_peer_connection StringMap.erase
  destroy-unheard peer = ground arith

  step-unheard : (e : Event net sig) → (step m e).last_heartbeat_rx_time ≡ []
  unfolding step init_begin init_locked start_begin stop_begin start_locked stop_locked hold
      connect_to_peer send_data_channel_message send_data_channel_message_to_all_peers
      handle_peer_local_sdp_generated handle_peer_local_candidate_generated send_signal
      handle_signaling_message handle_peer_connection_state_change on_heartbeat_timer
  step-unheard init_begins = ground arith
  step-unheard init_ends = ground arith
  step-unheard start_begins = ground arith
  step-unheard start_ends = ground arith
  step-unheard stop_begins = ground arith
  step-unheard stop_ends = ground arith
  step-unheard (registers slot handler) = register-heartbeats m slot handler ∙ unheard
  step-unheard (connects peer created) = ground arith
  step-unheard (disconnects peer) = disconnect-heartbeats m peer ∙ unheard
  step-unheard (sends peer label bytes) = ground arith
  step-unheard (broadcasts label bytes) = ground arith
  step-unheard (receives msg created) = dispatch-heartbeats m msg.type msg created ∙ unheard
  step-unheard (sdp_generated peer kind sdp) = ground arith
  step-unheard (candidate_generated peer text mid index) = ground arith
  step-unheard (state_changed peer state) = ground (arith, destroy-unheard peer)
  step-unheard (notices notice) = unheard
  step-unheard (heartbeat_timer now) =
      ap (λ x. x.last_heartbeat_rx_time) (check-unheard now) ∙ unheard
  step-unheard (drifts peer pc) = ground arith
  step-unheard (wires client) = unheard

module _ {net : IPeerConnection} {sig : ISignalingClient} where
  run-unheard :
      (m : Manager net sig) (history : List (Event net sig))
      → m.last_heartbeat_rx_time ≡ []
      → (run m history).last_heartbeat_rx_time ≡ []
  unfolding run
  run-unheard m [] u = u
  run-unheard m (e ∷ rest) u = run-unheard (step m e) rest (step-unheard m u e)

  -- No event of the program records a heartbeat, so after every history of events from construction
  -- the check for lost heartbeats does nothing, at whatever time: no peer is ever found lost.
  pub check_never_finds :
      (history : List (Event net sig)) (now : ℕ)
      → check_for_heartbeat_loss (run (new net sig) history) now ≡ run (new net sig) history
  check_never_finds history now =
      check-unheard (run (new net sig) history) (run-unheard (new net sig) history refl) now
