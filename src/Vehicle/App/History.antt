-- ===== src/Vehicle/App/History.antt =====
-- What holds after any interleaving of the vehicle client's threads.
use whl_air.Base.{◌≡◌, ◌≢◌, refl, true, List, [], ◌∷◌, eq_iff, arith}
use whl_air.Vehicle.Runtime.{
  RuntimeState, push_mode, apply_command, transition, on_peer_connected, on_peer_disconnected,
  on_network_up, on_network_down, on_heartbeat_lost, on_telemetry_message_received, on_webrtc_error,
}
use whl_air.Vehicle.Runtime.Safety
use whl_air.Vehicle.Runtime.Safety.{IsSafe}
use whl_air.Vehicle.Runtime.Trace
use whl_air.Vehicle.Runtime.Trace.{IsTraced}
use whl_air.Timeline
use whl_air.Vehicle.App.{
  Section, peer_connected, peer_disconnected, network_down, network_up, heartbeat_lost,
  telemetry_received, webrtc_error, command, publish_status_update, camera_round, telemetry_round,
  heartbeat_round, step, run, started, IsCommand, All,
}

step-IsSafe : (rt : RuntimeState) (s : Section) → IsSafe rt → IsSafe (step rt s)
unfolding step publish_status_update camera_round telemetry_round heartbeat_round
step-IsSafe rt peer_connected h = Safety.on_peer_connected-IsSafe rt h
step-IsSafe rt peer_disconnected h = Safety.on_peer_disconnected-IsSafe rt h
step-IsSafe rt network_down h = Safety.on_network_down-IsSafe rt h
step-IsSafe rt network_up h = Safety.on_network_up-IsSafe rt h
step-IsSafe rt heartbeat_lost h = Safety.on_heartbeat_lost-IsSafe rt h
step-IsSafe rt telemetry_received h = Safety.on_telemetry_message_received-IsSafe rt h
step-IsSafe rt webrtc_error h = Safety.on_webrtc_error-IsSafe rt h
step-IsSafe rt (command source name) h = Safety.apply_command-IsSafe rt h source name
step-IsSafe rt _ h = ground arith

step-IsTraced : (rt : RuntimeState) (s : Section) → IsTraced rt → IsTraced (step rt s)
unfolding step publish_status_update camera_round telemetry_round heartbeat_round
step-IsTraced rt peer_connected h = Trace.on_peer_connected-IsTraced rt h
step-IsTraced rt peer_disconnected h = Trace.on_peer_disconnected-IsTraced rt h
step-IsTraced rt network_down h = Trace.on_network_down-IsTraced rt h
step-IsTraced rt network_up h = Trace.on_network_up-IsTraced rt h
step-IsTraced rt heartbeat_lost h = Trace.on_heartbeat_lost-IsTraced rt h
step-IsTraced rt telemetry_received h = Trace.on_telemetry_message_received-IsTraced rt h
step-IsTraced rt webrtc_error h = Trace.on_webrtc_error-IsTraced rt h
step-IsTraced rt (command source name) h = Trace.apply_command-IsTraced rt h source name
step-IsTraced rt _ h = h

started-IsSafe : IsSafe started
unfolding started push_mode
started-IsSafe = ground (arith, eq_iff "AUTO" "SAFE_STOP")

run-IsSafe : (rt : RuntimeState) (history : List Section) → IsSafe rt → IsSafe (run rt history)
unfolding run
run-IsSafe rt [] h = h
run-IsSafe rt (s ∷ rest) h = run-IsSafe (step rt s) rest (step-IsSafe rt s h)

run-IsTraced :
    (rt : RuntimeState) (history : List Section) → IsTraced rt → IsTraced (run rt history)
unfolding run
run-IsTraced rt [] h = h
run-IsTraced rt (s ∷ rest) h = run-IsTraced (step rt s) rest (step-IsTraced rt s h)

-- After every interleaving of the vehicle's threads and events from its start the safety invariant
-- holds: the mode is one of the three, the emergency flag is up exactly in SAFE_STOP, where the gear
-- is 0, the gear is 0 or 1, and the speed is 0, or 6 in REMOTE_CONTROL.
pub run-started-IsSafe : (history : List Section) → IsSafe (run started history)
run-started-IsSafe history = run-IsSafe started history started-IsSafe

-- After every interleaving from the start the mode timeline ends with the present mode, its
-- neighbours differ, and REMOTE_CONTROL comes only directly after AUTO.
pub run-started-IsTraced : (history : List Section) → IsTraced (run started history)
unfolding started push_mode Timeline.push
run-started-IsTraced history = run-IsTraced started history traced
  where
    traced : IsTraced started
    traced = (refl, tt)

-- An emergency holds the vehicle: up, stopped, in SAFE_STOP.
abbrev pub IsHeld : RuntimeState → Type 0
IsHeld rt = (rt.emergency ≡ true) × (rt.mode ≡ "SAFE_STOP") × (rt.speed_mps ≡ 0) × (rt.gear ≡ 0)

step-IsHeld :
    (rt : RuntimeState) (s : Section)
    → ¬ IsCommand "RECOVER_AUTO" s
    → IsHeld rt
    → IsHeld (step rt s)
unfolding step on_peer_connected on_peer_disconnected on_network_down on_network_up
    on_heartbeat_lost on_telemetry_message_received on_webrtc_error apply_command transition
    push_mode publish_status_update camera_round telemetry_round heartbeat_round
step-IsHeld rt (command source name) n h = ground (
  arith,
  n,
  eq_iff name "RECOVER_AUTO",
  eq_iff rt.mode "AUTO",
  eq_iff rt.mode "REMOTE_CONTROL",
  eq_iff "SAFE_STOP" "AUTO",
  eq_iff "SAFE_STOP" "REMOTE_CONTROL",
)
step-IsHeld rt _ n h = ground arith

-- Once an emergency holds the vehicle, no interleaving that has no RECOVER_AUTO command ends it: the
-- flag stays up, the mode SAFE_STOP, the speed and the gear 0.
pub run-IsHeld :
    (rt : RuntimeState) (history : List Section)
    → IsHeld rt
    → All (λ s. ¬ IsCommand "RECOVER_AUTO" s) history
    → IsHeld (run rt history)
unfolding run
run-IsHeld rt [] h n = h
run-IsHeld rt (s ∷ rest) h n = run-IsHeld (step rt s) rest (step-IsHeld rt s n.0 h) n.1

-- Not driven.
abbrev pub IsParked : RuntimeState → Type 0
IsParked rt = (rt.mode ≢ "REMOTE_CONTROL") × (rt.speed_mps ≡ 0)

step-IsParked :
    (rt : RuntimeState) (s : Section)
    → ¬ IsCommand "TAKEOVER_REQUEST" s
    → IsParked rt
    → IsParked (step rt s)
unfolding step on_peer_connected on_peer_disconnected on_network_down on_network_up
    on_heartbeat_lost on_telemetry_message_received on_webrtc_error apply_command transition
    push_mode publish_status_update camera_round telemetry_round heartbeat_round
step-IsParked rt (command source name) n h = ground (
  arith,
  n,
  eq_iff name "TAKEOVER_REQUEST",
  eq_iff rt.mode "REMOTE_CONTROL",
  eq_iff "SAFE_STOP" "REMOTE_CONTROL",
  eq_iff "AUTO" "REMOTE_CONTROL",
)
step-IsParked rt _ n h =
    ground (arith, eq_iff "SAFE_STOP" "REMOTE_CONTROL", eq_iff "AUTO" "REMOTE_CONTROL")

-- A vehicle that is not under remote control stays at speed 0, and out of REMOTE_CONTROL, in every
-- interleaving that has no TAKEOVER_REQUEST command.
pub run-IsParked :
    (rt : RuntimeState) (history : List Section)
    → IsParked rt
    → All (λ s. ¬ IsCommand "TAKEOVER_REQUEST" s) history
    → IsParked (run rt history)
unfolding run
run-IsParked rt [] h n = h
run-IsParked rt (s ∷ rest) h n = run-IsParked (step rt s) rest (step-IsParked rt s n.0 h) n.1
