-- ===== src/Vehicle/App/SelfTest.antt =====
-- run_self_test of vehicle_client/vehicle_client_app.cc: the main thread's handlers and commands, with
-- what the other threads do and whether a stop is requested in between.
use whl_air.Base.{
  ℕ, String, ◌==◌, ltb, eqb, Bool, true, false, not, ◌&&◌, none, some, List, [], ◌∷◌, if◌then◌else◌,
}
use whl_air.SelfTest.{Moment, Step, does, demands, perform, from_cursor, is_at_end}
use whl_air.Vehicle.Config.{RuntimeConfig}
use whl_air.Vehicle.Runtime.{RuntimeState, apply_command}
use whl_air.Vehicle.App.{
  Section, peer_connected, peer_disconnected, network_down, network_up, heartbeat_lost,
  telemetry_received, webrtc_error, status_update, step, camera_round, telemetry_round,
  heartbeat_round, started,
}

-- A round of a background thread: the only other threads while the self test runs.
pub data Tick : Type 0 where
  camera telemetry heartbeat : Tick

unfoldable pub tick : RuntimeState → Tick → RuntimeState
unfolding camera_round telemetry_round heartbeat_round
tick rt camera = camera_round rt
tick rt telemetry = telemetry_round rt
tick rt heartbeat = heartbeat_round rt

-- What the test does: a critical section, or a command that must be accepted.
pub data Action : Type 0 where
  event : Section → Action
  apply_cmd : String → String → Action

unfoldable pub act : RuntimeState → Action → RuntimeState × Bool
act rt (event section) = (step rt section, true)
act rt (apply_cmd source cmd) = apply_command rt source cmd

-- `handle_peer_connected` and its like: the handler, then `publish_status_update`.
abbrev handle : Section → List (Step Action) → List (Step Action)
handle section rest = does (event section) ∷ does (event status_update) ∷ rest

abbrev control : String → List (Step Action) → List (Step Action)
control cmd rest = demands (apply_cmd "control_channel" cmd) ∷ rest

abbrev pub script : List (Step Action)
script = handle peer_connected (
    handle telemetry_received (
      control "TAKEOVER_REQUEST" (
        control "FORWARD" (
          control "STOP" (
            demands (apply_cmd "safety_channel" "EMERGENCY_STOP")
            ∷ handle network_down (
                handle network_up (
                  control "RECOVER_AUTO" (
                    handle heartbeat_lost (
                      control "RECOVER_AUTO" (
                        handle webrtc_error (
                          control "RECOVER_AUTO"
                            (handle peer_disconnected (handle peer_connected [])))))))))))))

abbrev pub expected_modes : List String
expected_modes = "AUTO" ∷ "REMOTE_CONTROL" ∷ "SAFE_STOP" ∷ "AUTO" ∷ "SAFE_STOP" ∷ "AUTO" ∷ []

unfoldable pub ok : RuntimeConfig → RuntimeState → Bool
unfolding from_cursor
ok config rt =
    ltb 0 rt.camera_frames
    && ltb 0 rt.video_frames_sent
    && ltb 2 rt.telemetry_messages
    && ltb 0 rt.telemetry_sent
    && ltb 0 rt.telemetry_messages_received
    && (if ltb 0 config.heartbeat_interval_ms
        then ltb 0 rt.heartbeat_messages
        else eqb rt.heartbeat_messages 0)
    && ltb 6 rt.command_acks
    && ltb 4 rt.control_messages_received
    && ltb 2 rt.emergency_commands_received
    && ltb 0 rt.webrtc_errors
    && ltb 1 rt.peer_connected_events
    && ltb 0 rt.peer_disconnected_events
    && ltb 0 rt.network_up_events
    && ltb 0 rt.network_down_events
    && ltb 0 rt.heartbeat_lost_events
    && ltb 4 rt.status_updates
    && is_at_end (from_cursor expected_modes rt.mode_timeline)
    && rt.mode == "AUTO"
    && not rt.emergency
    && rt.peer_connected

unfoldable pub run_self_test : RuntimeConfig → (ℕ → Moment Tick) → Bool
unfolding ok
run_self_test config moments = elim (perform tick act moments 0 started script) [
  | none ↦ false
  | some last ↦ ok config last
]
