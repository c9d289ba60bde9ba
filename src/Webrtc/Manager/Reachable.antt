-- ===== src/Webrtc/Manager/Reachable.antt =====
-- The soundness of the manager's maps after any history of events.
use whl_air.Base.{ℕ, String, ◌≡◌, ◌≢◌, refl, Bool, Option, none, some, List, [], ◌∷◌, arith}
use whl_air.Base.Int.{ℤ}
use whl_air.StringMap
use whl_air.StringMap.{Map, find}
use whl_air.Signaling.Message.{
  SignalMessage, MessageType, unknown, join, leave, offer, answer, candidate,
}
use whl_air.Webrtc.Interfaces.{IPeerConnection, ISignalingClient, PeerConnectionState}
use whl_air.Webrtc.Manager.{Manager, PendingRemoteCandidate, new}
use whl_air.Webrtc.Manager.Lifecycle.{
  init_begin, init_locked, start_begin, start_locked, stop_begin, stop_locked,
}
use whl_air.Webrtc.Manager.Peers.{destroy_peer_connection, disconnect_from_peer}
use whl_air.Webrtc.Manager.Signals.{
  described, offer_to, answer_to, candidate_for, candidate_of, dispatch, handle_signaling_message,
}
use whl_air.Webrtc.Manager.PeerEvents.{
  send_signal, handle_peer_local_sdp_generated, handle_peer_local_candidate_generated,
  handle_peer_connection_state_change, destroy_all, check_for_heartbeat_loss, on_heartbeat_timer,
}
use whl_air.Webrtc.Manager.Handlers.{register, Slot, on_signaling_connected}
use whl_air.Webrtc.Manager.Soundness.{IsSound, hold-IsSound, connect_to_peer-IsSound}
use whl_air.Webrtc.Manager.Preserved.{
  find-ping_all, disconnect_from_peer-IsSound, send_data_channel_message-IsSound,
  send_data_channel_message_to_all_peers-IsSound, get_or_create-IsSound,
  destroy_peer_connection-IsSound, described-IsSound, handle_leave-IsSound, candidate_to-IsSound,
}
use whl_air.Webrtc.Manager.Events.{
  Event, init_begins, init_ends, start_begins, start_ends, stop_begins, stop_ends, registers,
  connects, disconnects, sends, broadcasts, receives, sdp_generated, candidate_generated,
  state_changed, notices, heartbeat_timer, drifts, wires, unless_fault, drift, step, run,
}

module _ {net : IPeerConnection} {sig : ISignalingClient} (m : Manager net sig)
    (s : IsSound m) where
  offer_to-IsSound :
      (peer : String) (pc : Option net.Pc) (sdp : Option String)
      → IsSound (offer_to m peer pc sdp).0
  unfolding offer_to
  offer_to-IsSound peer (some pc) (some sdp) =
      grind (arith, hold-IsSound m s, hold-IsSound (described m peer) (described-IsSound m s peer))
  offer_to-IsSound peer _ _ = s

  answer_to-IsSound :
      (peer : String) (pc : Option net.Pc) (sdp : Option String)
      → IsSound (answer_to m peer pc sdp).0
  unfolding answer_to
  answer_to-IsSound peer (some pc) (some sdp) =
      grind (arith, hold-IsSound m s, hold-IsSound (described m peer) (described-IsSound m s peer))
  answer_to-IsSound peer _ _ = s

  candidate_for-IsSound :
      (peer : String) (pc : Option net.Pc) (c : Option PendingRemoteCandidate)
      → IsSound (candidate_for m peer pc c).0
  unfolding candidate_for
  candidate_for-IsSound peer (some pc) (some c) = candidate_to-IsSound m s peer pc c
  candidate_for-IsSound peer _ _ = s

  start_locked-IsSound : IsSound (start_locked m).0
  unfolding start_locked
  start_locked-IsSound = ground arith

  stop_locked-IsSound : IsSound (stop_locked m).0
  unfolding stop_locked StringMap.find
  stop_locked-IsSound = record { no_null = record { at = λ peer e. cc }; buffer = s.buffer }

  register-IsSound : (slot : Slot) (handler : Option ℕ) → IsSound (register slot m handler)
  unfolding register
  register-IsSound on_signaling_connected handler = record {
    no_null = s.no_null;
    buffer = s.buffer;
  }
  register-IsSound _ handler = record { no_null = s.no_null; buffer = s.buffer }

  send_signal-IsSound : (msg : SignalMessage) (text : String) → IsSound (send_signal m msg text).0
  unfolding send_signal
  send_signal-IsSound msg text = ground arith

  handle_peer_local_sdp_generated-IsSound :
      (peer kind sdp : String) → IsSound (handle_peer_local_sdp_generated m peer kind sdp).0
  unfolding handle_peer_local_sdp_generated
  handle_peer_local_sdp_generated-IsSound peer kind sdp = grind (arith, send_signal-IsSound)

  handle_peer_local_candidate_generated-IsSound :
      (peer text mid : String) (index : ℤ)
      → IsSound (handle_peer_local_candidate_generated m peer text mid index).0
  unfolding handle_peer_local_candidate_generated
  handle_peer_local_candidate_generated-IsSound peer text mid index =
      grind (arith, send_signal-IsSound)

  handle_peer_connection_state_change-IsSound :
      (peer : String) (state : PeerConnectionState)
      → IsSound (handle_peer_connection_state_change m peer state).0
  unfolding handle_peer_connection_state_change
  handle_peer_connection_state_change-IsSound peer state =
      ground (arith, destroy_peer_connection-IsSound m s peer)

module _ {net : IPeerConnection} {sig : ISignalingClient} where
  dispatch-IsSound :
      (m : Manager net sig) (s : IsSound m) (kind : MessageType) (msg : SignalMessage)
      (created : Option net.Pc)
      → IsSound (dispatch kind m msg created).0
  unfolding dispatch
  dispatch-IsSound m s join msg created = s
  dispatch-IsSound m s leave msg created = handle_leave-IsSound m s msg.from
  dispatch-IsSound m s offer msg created =
      offer_to-IsSound _ (get_or_create-IsSound m s msg.from created) msg.from _ msg.sdp
  dispatch-IsSound m s answer msg created =
      answer_to-IsSound _ (get_or_create-IsSound m s msg.from created) msg.from _ msg.sdp
  dispatch-IsSound m s candidate msg created =
      candidate_for-IsSound _ (get_or_create-IsSound m s msg.from created) msg.from _
        (candidate_of msg)
  dispatch-IsSound m s unknown msg created = s

  destroy_all-IsSound :
      (m : Manager net sig) (peers : List String) → IsSound m → IsSound (destroy_all m peers)
  unfolding destroy_all
  destroy_all-IsSound m [] s = s
  destroy_all-IsSound m (peer ∷ rest) s =
      destroy_all-IsSound (destroy_peer_connection m peer).0 rest
        (destroy_peer_connection-IsSound m s peer)

  check_for_heartbeat_loss-IsSound :
      (m : Manager net sig) (now : ℕ) → IsSound m → IsSound (check_for_heartbeat_loss m now)
  unfolding check_for_heartbeat_loss
  check_for_heartbeat_loss-IsSound m now s = grind (arith, destroy_all-IsSound)

  on_heartbeat_timer-IsSound :
      (m : Manager net sig) (now : ℕ) → IsSound m → IsSound (on_heartbeat_timer m now)
  unfolding on_heartbeat_timer
  on_heartbeat_timer-IsSound m now s =
      let checked = check_for_heartbeat_loss-IsSound m now s in
      record {
        no_null = record { at = λ peer. find-ping_all net _ peer (checked.no_null.at peer) };
        buffer = checked.buffer;
      }

  unless_fault-IsSound :
      (m : Manager net sig) (r : Option (Manager net sig × Bool))
      → IsSound m
      → ((next : Manager net sig) (b : Bool) → r ≡ some (next, b) → IsSound next)
      → IsSound (unless_fault m r)
  unless_fault-IsSound m none s h = s
  unless_fault-IsSound m (some (next, b)) s h = h next b refl

  drift-IsSound :
      (m : Manager net sig) (peer : String) (pc : net.Pc) (found : Option (Option net.Pc))
      → IsSound m
      → IsSound (drift m peer pc found)
  drift-IsSound m peer pc (some (some old)) s = hold-IsSound m s peer pc
  drift-IsSound m peer pc (some none) s = s
  drift-IsSound m peer pc none s = s

  pub step-IsSound : (m : Manager net sig) (e : Event net sig) → IsSound m → IsSound (step m e)
  unfolding step init_begin init_locked start_begin stop_begin handle_signaling_message
  step-IsSound m init_begins s = ground arith
  step-IsSound m init_ends s = ground arith
  step-IsSound m start_begins s = ground arith
  step-IsSound m start_ends s = start_locked-IsSound m s
  step-IsSound m stop_begins s = ground arith
  step-IsSound m stop_ends s = stop_locked-IsSound m s
  step-IsSound m (registers slot handler) s = register-IsSound m s slot handler
  step-IsSound m (connects peer created) s = connect_to_peer-IsSound m s peer created
  step-IsSound m (disconnects peer) s =
      unless_fault-IsSound m (disconnect_from_peer m peer) s (disconnect_from_peer-IsSound m s peer)
  step-IsSound m (sends peer label bytes) s = send_data_channel_message-IsSound m s peer label bytes
  step-IsSound m (broadcasts label bytes) s =
      send_data_channel_message_to_all_peers-IsSound m s label bytes
  step-IsSound m (receives msg created) s = dispatch-IsSound m s msg.type msg created
  step-IsSound m (sdp_generated peer kind sdp) s =
      handle_peer_local_sdp_generated-IsSound m s peer kind sdp
  step-IsSound m (candidate_generated peer text mid index) s =
      handle_peer_local_candidate_generated-IsSound m s peer text mid index
  step-IsSound m (state_changed peer state) s =
      handle_peer_connection_state_change-IsSound m s peer state
  step-IsSound m (notices notice) s = s
  step-IsSound m (heartbeat_timer now) s = on_heartbeat_timer-IsSound m now s
  step-IsSound m (drifts peer pc) s = drift-IsSound m peer pc (find peer m.peer_connections) s
  step-IsSound m (wires client) s = record { no_null = s.no_null; buffer = s.buffer }

  run-IsSound :
      (m : Manager net sig) (history : List (Event net sig)) → IsSound m → IsSound (run m history)
  unfolding run
  run-IsSound m [] s = s
  run-IsSound m (e ∷ rest) s = run-IsSound (step m e) rest (step-IsSound m e s)

  -- After every history of events from construction the manager holds no null pointer, and it buffers
  -- remote candidates only for peers whose remote description is not set.
  pub run-new-IsSound : (history : List (Event net sig)) → IsSound (run (new net sig) history)
  unfolding StringMap.find
  run-new-IsSound history =
      run-IsSound (new net sig) history
        (record { no_null = record { at = λ peer e. cc }; buffer = record { at = λ peer e. cc } })

  -- disconnectFromPeer, which does not test the pointer that it finds, never calls through null, after
  -- every history of events from construction.
  disconnect_never_faults :
      (history : List (Event net sig)) (peer : String)
      → disconnect_from_peer (run (new net sig) history) peer ≢ none
  unfolding disconnect_from_peer
  disconnect_never_faults history peer = ground (arith, (run-new-IsSound history).no_null.at peer)
