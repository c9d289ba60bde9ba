-- ===== src/Vehicle/App/Quiet.antt =====
-- run_self_test of vehicle_client/vehicle_client_app.cc with and without the other threads.
use whl_air.Base.{String, ◌≡◌, refl, ap, ◌∙◌, Bool, true, Option, none, some, [], ◌∷◌, arith}
use whl_air.Timeline
use whl_air.Vehicle.Runtime.{
  RuntimeState, apply_command, transition, acknowledge, count_command, push_mode, safe_stop,
  on_peer_connected, on_peer_disconnected, on_network_down, on_network_up, on_heartbeat_lost,
  on_telemetry_message_received, on_webrtc_error, initial,
}
use whl_air.Vehicle.App.{
  Section, peer_connected, peer_disconnected, network_down, network_up, heartbeat_lost,
  telemetry_received, webrtc_error, command, status_update, camera_tick, telemetry_tick,
  heartbeat_tick, step, publish_status_update, camera_round, telemetry_round, heartbeat_round,
  started,
}
use whl_air.SelfTest.{seen, quiet}
use whl_air.Vehicle.App.SelfTest.{
  Tick, camera, telemetry, heartbeat, tick, Action, event, apply_cmd, act, script,
}

-- The state without the counters of the background threads.
abbrev pub core : RuntimeState → RuntimeState
core rt = record rt {
  stats = record rt.stats {
    camera_frames = 0;
    video_frames_sent = 0;
    telemetry_messages = 0;
    telemetry_sent = 0;
    heartbeat_messages = 0;
  };
}

pub core-tick : (rt : RuntimeState) (t : Tick) → core (tick rt t) ≡ core rt
unfolding tick camera_round telemetry_round heartbeat_round
core-tick rt camera = refl
core-tick rt telemetry = refl
core-tick rt heartbeat = refl

core-transition :
    (rt : RuntimeState) (name : String)
    → elim (transition rt name) [ none ↦ none | some next ↦ some (core next) ]
      ≡ transition (core rt) name
unfolding transition safe_stop push_mode
core-transition rt name = ground arith

core-acknowledge :
    (rt : RuntimeState) (r : Option RuntimeState)
    → let (next, accepted) = acknowledge rt r in
      (core next, accepted)
      ≡ acknowledge (core rt) (elim r [ none ↦ none | some next ↦ some (core next) ])
unfolding acknowledge
core-acknowledge rt none = refl
core-acknowledge rt (some next) = refl

core-apply_command :
    (rt : RuntimeState) (source name : String)
    → let (next, accepted) = apply_command rt source name in
      (core next, accepted) ≡ apply_command (core rt) source name
unfolding apply_command count_command
core-apply_command rt source name =
    core-acknowledge (count_command rt source name) (transition (count_command rt source name) name)
    ∙ ap (acknowledge (core (count_command rt source name)))
        (core-transition (count_command rt source name) name)

core-step : (rt : RuntimeState) (s : Section) → core (step rt s) ≡ core (step (core rt) s)
unfolding step on_peer_connected on_peer_disconnected on_network_down on_network_up
    on_heartbeat_lost on_telemetry_message_received on_webrtc_error safe_stop push_mode
    publish_status_update camera_round telemetry_round heartbeat_round
core-step rt peer_connected = refl
core-step rt peer_disconnected = refl
core-step rt network_down = refl
core-step rt network_up = refl
core-step rt heartbeat_lost = refl
core-step rt telemetry_received = refl
core-step rt webrtc_error = refl
core-step rt (command source name) =
    ap (λ (r : RuntimeState × Bool). core r.0) (core-apply_command rt source name)
core-step rt status_update = refl
core-step rt camera_tick = refl
core-step rt telemetry_tick = refl
core-step rt heartbeat_tick = refl

pub core-act : (rt : RuntimeState) (a : Action) → seen core (act rt a) ≡ seen core (act (core rt) a)
unfolding act
core-act rt (event section) = ap (λ r. (r, true)) (core-step rt section)
core-act rt (apply_cmd source cmd) =
    ap (λ (r : RuntimeState × Bool). (core r.0, r.1)) (core-apply_command rt source cmd)

-- The end of the test, but for the counters of the background threads.
abbrev pub final : RuntimeState
final = record initial {
  peer_connected = true;
  stats = record initial.stats {
    telemetry_messages_received = 1;
    command_acks = 7;
    control_messages_received = 6;
    emergency_commands_received = 4;
    webrtc_errors = 1;
    peer_connected_events = 2;
    peer_disconnected_events = 1;
    network_up_events = 1;
    network_down_events = 1;
    heartbeat_lost_events = 1;
    status_updates = 8;
    mode_timeline =
        "AUTO" ∷ "REMOTE_CONTROL" ∷ "SAFE_STOP" ∷ "AUTO" ∷ "SAFE_STOP" ∷ "AUTO" ∷ "SAFE_STOP"
        ∷ "AUTO" ∷ [];
  };
}

pub quiet-script : quiet tick act core (core started) script ≡ some final
unfolding quiet act started push_mode step on_peer_connected on_peer_disconnected on_network_down
    on_network_up on_heartbeat_lost on_telemetry_message_received on_webrtc_error safe_stop
    publish_status_update apply_command count_command transition acknowledge Timeline.push
quiet-script = refl
