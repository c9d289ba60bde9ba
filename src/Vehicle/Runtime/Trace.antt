-- ===== src/Vehicle/Runtime/Trace.antt =====
-- The vehicle's mode timeline records every change of mode.
use whl_air.Base.{String, ◌≡◌, ◌≢◌, some, eq_iff, arith, List}
use whl_air.Timeline.{last?, Linked, push, last?-push, push-Linked}
use whl_air.Vehicle.Runtime.{
  RuntimeState, push_mode, on_peer_connected, on_peer_disconnected, on_network_down, on_network_up,
  on_heartbeat_lost, on_telemetry_message_received, on_webrtc_error, transition, apply_command,
}

-- Neighbours in the timeline differ, and remote control is entered from AUTO only.
abbrev pub Follows : String → String → Type 0
Follows old new = (old ≢ new) × (new ≡ "REMOTE_CONTROL" → old ≡ "AUTO")

abbrev Traced : List String → String → Type 0
Traced timeline mode = (last? timeline ≡ some mode) × Linked Follows timeline

-- The timeline ends with the present mode, and its neighbours follow one another.
abbrev pub IsTraced : RuntimeState → Type 0
IsTraced rt = Traced rt.mode_timeline rt.mode

push-Traced :
    (timeline : List String) (old new : String)
    → Traced timeline old
    → (new ≡ "REMOTE_CONTROL" → old ≡ "AUTO")
    → Traced (push timeline new) new
push-Traced timeline old new t allowed = (
  last?-push timeline new,
  push-Linked Follows timeline new t.1 (λ x e differs. (differs, λ r. ground (arith, allowed r))),
)

module _ (rt : RuntimeState) (t : IsTraced rt) where
  auto : Traced (push rt.mode_timeline "AUTO") "AUTO"
  auto =
      push-Traced rt.mode_timeline rt.mode "AUTO" t
        λ e. ground (arith, eq_iff "AUTO" "REMOTE_CONTROL")

  halted : Traced (push rt.mode_timeline "SAFE_STOP") "SAFE_STOP"
  halted =
      push-Traced rt.mode_timeline rt.mode "SAFE_STOP" t
        λ e. ground (arith, eq_iff "SAFE_STOP" "REMOTE_CONTROL")

  pub on_peer_connected-IsTraced : IsTraced (on_peer_connected rt)
  unfolding on_peer_connected push_mode
  on_peer_connected-IsTraced = ground (arith, auto, halted)

  pub on_peer_disconnected-IsTraced : IsTraced (on_peer_disconnected rt)
  unfolding on_peer_disconnected push_mode
  on_peer_disconnected-IsTraced = ground (arith, auto, halted)

  pub on_network_down-IsTraced : IsTraced (on_network_down rt)
  unfolding on_network_down push_mode
  on_network_down-IsTraced = halted

  pub on_network_up-IsTraced : IsTraced (on_network_up rt)
  unfolding on_network_up push_mode
  on_network_up-IsTraced = ground (arith, auto, halted)

  pub on_heartbeat_lost-IsTraced : IsTraced (on_heartbeat_lost rt)
  unfolding on_heartbeat_lost push_mode
  on_heartbeat_lost-IsTraced = halted

  pub on_telemetry_message_received-IsTraced : IsTraced (on_telemetry_message_received rt)
  unfolding on_telemetry_message_received
  on_telemetry_message_received-IsTraced = t

  pub on_webrtc_error-IsTraced : IsTraced (on_webrtc_error rt)
  unfolding on_webrtc_error push_mode
  on_webrtc_error-IsTraced = halted

  pub apply_command-IsTraced :
      (source command_name : String) → IsTraced (apply_command rt source command_name).0
  unfolding apply_command transition push_mode
  apply_command-IsTraced source command_name = ground (
    arith,
    auto,
    halted,
    eq_iff rt.mode "AUTO",
    push-Traced rt.mode_timeline rt.mode "REMOTE_CONTROL" t,
  )
