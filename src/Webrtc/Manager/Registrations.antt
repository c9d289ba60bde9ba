-- ===== src/Webrtc/Manager/Registrations.antt =====
-- The handlers of webrtc/webrtc_manager.cc over whole histories: only the registering methods change
-- them.
use whl_air.Base.{
  String, ◌≡◌, refl, ap, subst⁻¹, sym, ◌∙◌, Option, none, some, List, [], ◌∷◌, arith,
}
use whl_air.Webrtc.Interfaces.{
  IPeerConnection, ISignalingClient, Handler, DataChannelMessage, Call, signaling_connected,
  signaling_disconnected, signaling_error, peer_connected, peer_disconnected, peer_error,
  data_channel_message,
}
use whl_air.Webrtc.Manager.{Manager}
use whl_air.Webrtc.Manager.Lifecycle.{
  init_begin, init_locked, start_begin, start_locked, stop_begin, stop_locked,
}
use whl_air.Webrtc.Manager.Peers.{
  hold, connect_to_peer, send_data_channel_message, send_data_channel_message_to_all_peers,
}
use whl_air.Webrtc.Manager.Signals.{handle_signaling_message}
use whl_air.Webrtc.Manager.PeerEvents.{
  handle_peer_local_sdp_generated, handle_peer_local_candidate_generated,
  handle_peer_connection_state_change, on_heartbeat_timer, send_signal,
}
use whl_air.Webrtc.Manager.Handlers.{
  Slot, register, on_signaling_connected, on_signaling_disconnected, on_signaling_error,
  on_peer_connected, on_peer_disconnected, on_peer_error, on_data_channel_message_received,
}
use whl_air.Webrtc.Manager.Invocations.{
  invoke_signaling_connected_callback, invoke_signaling_disconnected_callback,
  invoke_signaling_error_callback, invoke_peer_connected_callback,
  invoke_peer_disconnected_callback, invoke_peer_error_callback,
  invoke_data_channel_message_received_callback,
}
use whl_air.Webrtc.Manager.Events.{
  Event, init_begins, init_ends, start_begins, start_ends, stop_begins, stop_ends, registers,
  connects, disconnects, sends, broadcasts, receives, sdp_generated, candidate_generated,
  state_changed, notices, heartbeat_timer, drifts, wires, step, run,
}
use whl_air.Webrtc.Manager.Kept.{
  Handlers, handlers_of, disconnect-handlers, dispatch-handlers, destroy-handlers, check-handlers,
}

-- A registration.
unfoldable pub put : Slot → Option Handler → Handlers → Handlers
put on_signaling_connected handler h = record h { connected = handler }
put on_signaling_disconnected handler h = record h { disconnected = handler }
put on_signaling_error handler h = record h { failed = handler }
put on_peer_connected handler h = record h { peer_in = handler }
put on_peer_disconnected handler h = record h { peer_out = handler }
put on_peer_error handler h = record h { peer_failed = handler }
put on_data_channel_message_received handler h = record h { bytes = handler }

-- An invocation of the handler, if there is one.
abbrev pub called : Option Handler → (Handler → Call) → List Call
called none call = []
called (some handler) call = call handler ∷ []

module _ {net : IPeerConnection} {sig : ISignalingClient} where
  register-put :
      (m : Manager net sig) (slot : Slot) (handler : Option Handler)
      → handlers_of (register slot m handler) ≡ put slot handler (handlers_of m)
  unfolding register put
  register-put m on_signaling_connected handler = refl
  register-put m on_signaling_disconnected handler = refl
  register-put m on_signaling_error handler = refl
  register-put m on_peer_connected handler = refl
  register-put m on_peer_disconnected handler = refl
  register-put m on_peer_error handler = refl
  register-put m on_data_channel_message_received handler = refl

  -- What an event and what a history registers.
  abbrev pub noted : Handlers → Event net sig → Handlers
  noted h (registers slot handler) = put slot handler h
  noted h _ = h

  abbrev pub all_noted : Handlers → List (Event net sig) → Handlers
  all_noted h [] = h
  all_noted h (e ∷ rest) = all_noted (noted h e) rest

  step-noted :
      (m : Manager net sig) (e : Event net sig) → handlers_of (step m e) ≡ noted (handlers_of m) e
  unfolding step init_begin init_locked start_begin stop_begin start_locked stop_locked hold
      connect_to_peer send_data_channel_message send_data_channel_message_to_all_peers
      handle_peer_local_sdp_generated handle_peer_local_candidate_generated send_signal
      handle_signaling_message handle_peer_connection_state_change on_heartbeat_timer
  step-noted m init_begins = ground arith
  step-noted m init_ends = ground arith
  step-noted m start_begins = ground arith
  step-noted m start_ends = ground arith
  step-noted m stop_begins = ground arith
  step-noted m stop_ends = ground arith
  step-noted m (registers slot handler) = register-put m slot handler
  step-noted m (connects peer created) = ground arith
  step-noted m (disconnects peer) = disconnect-handlers m peer
  step-noted m (sends peer label bytes) = ground arith
  step-noted m (broadcasts label bytes) = ground arith
  step-noted m (receives msg created) = dispatch-handlers m msg.type msg created
  step-noted m (sdp_generated peer kind sdp) = ground arith
  step-noted m (candidate_generated peer text mid index) = ground arith
  step-noted m (state_changed peer state) = ground (arith, destroy-handlers m peer)
  step-noted m (notices notice) = refl
  step-noted m (heartbeat_timer now) = check-handlers m now
  step-noted m (drifts peer pc) = ground arith
  step-noted m (wires client) = refl

  run-noted :
      (m : Manager net sig) (history : List (Event net sig))
      → handlers_of (run m history) ≡ all_noted (handlers_of m) history
  unfolding run
  run-noted m [] = refl
  run-noted m (e ∷ rest) = run-noted (step m e) rest ∙ ap (λ h. all_noted h rest) (step-noted m e)

  -- Each helper invokes the handler of its slot.
  pub IsInvoked : Manager net sig → Handlers → Type 0
  IsInvoked m h =
      (invoke_signaling_connected_callback m ≡ called h.connected signaling_connected)
      × ((reason : String)
          → invoke_signaling_disconnected_callback m reason
            ≡ called h.disconnected (λ k. signaling_disconnected k reason))
      × ((text : String)
          → invoke_signaling_error_callback m text ≡ called h.failed (λ k. signaling_error k text))
      × ((peer : String)
          → invoke_peer_connected_callback m peer ≡ called h.peer_in (λ k. peer_connected k peer))
      × ((peer reason : String)
          → invoke_peer_disconnected_callback m peer reason
            ≡ called h.peer_out (λ k. peer_disconnected k peer reason))
      × ((peer text : String)
          → invoke_peer_error_callback m peer text
            ≡ called h.peer_failed (λ k. peer_error k peer text))
      × ((peer label : String) (bytes : DataChannelMessage)
          → invoke_data_channel_message_received_callback m peer label bytes
            ≡ called h.bytes (λ k. data_channel_message k peer label bytes))

  invoked : (m : Manager net sig) → IsInvoked m (handlers_of m)
  unfolding IsInvoked invoke_signaling_connected_callback invoke_signaling_disconnected_callback
      invoke_signaling_error_callback invoke_peer_connected_callback
      invoke_peer_disconnected_callback invoke_peer_error_callback
      invoke_data_channel_message_received_callback
  invoked m = (
    ground arith,
    λ reason. ground arith,
    λ text. ground arith,
    λ peer. ground arith,
    λ peer reason. ground arith,
    λ peer text. ground arith,
    λ peer label bytes. ground arith,
  )

  -- After every history of events the handler in each of the manager's seven slots is the one that was
  -- registered last in that slot, or the first one where there was no registration; an empty one
  -- empties the slot. Each helper that invokes a handler invokes that one with its arguments, or
  -- nothing.
  pub run-IsInvoked :
      (m : Manager net sig) (history : List (Event net sig))
      → IsInvoked (run m history) (all_noted (handlers_of m) history)
  run-IsInvoked m history =
      subst⁻¹ (IsInvoked (run m history)) (sym (run-noted m history)) (invoked (run m history))
