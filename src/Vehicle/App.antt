-- ===== src/Vehicle/App.antt =====
-- vehicle_client/vehicle_client_app.cc: the threads of the vehicle client as sequences of critical
-- sections. A thread touches the runtime state only while it holds `runtime->mutex`, so a run of the
-- program is a list of such sections in the order in which the lock was taken. Log output is left out.
pub mod History
pub mod Tally
pub mod SelfTest
pub mod Quiet
pub mod Verdict
pub mod Busy
pub mod Recovery
use whl_air.Base.{◌+◌, String, ◌≡◌, List, [], ◌∷◌, if◌then◌else◌}
use whl_air.Vehicle.Runtime.{
  RuntimeState, on_peer_connected, on_peer_disconnected, on_network_down, on_network_up,
  on_heartbeat_lost, on_telemetry_message_received, on_webrtc_error, apply_command, push_mode,
  initial,
}

-- The state with which `main` starts the threads: the initial mode is pushed once.
pub started : RuntimeState
started = push_mode initial "AUTO"

-- One critical section of one thread.
pub data Section : Type 0 where
  peer_connected peer_disconnected network_down network_up heartbeat_lost : Section
  telemetry_received webrtc_error : Section
  command : String → String → Section
  status_update camera_tick telemetry_tick heartbeat_tick : Section

-- `publish_status_update`; its arguments are printed only.
pub publish_status_update : RuntimeState → RuntimeState
publish_status_update rt = record rt {
  stats = record rt.stats { status_updates = rt.status_updates + 1 };
}

-- The body of one round of `camera_loop`.
pub camera_round : RuntimeState → RuntimeState
camera_round rt = record rt {
  stats = record rt.stats {
    camera_frames = rt.camera_frames + 1;
    video_frames_sent =
        if rt.peer_connected then rt.video_frames_sent + 1 else rt.video_frames_sent;
  };
}

-- The body of one round of `telemetry_loop`.
pub telemetry_round : RuntimeState → RuntimeState
telemetry_round rt = record rt {
  stats = record rt.stats {
    telemetry_messages = rt.telemetry_messages + 1;
    telemetry_sent = if rt.peer_connected then rt.telemetry_sent + 1 else rt.telemetry_sent;
  };
}

-- The body of one round of `heartbeat_loop`.
pub heartbeat_round : RuntimeState → RuntimeState
heartbeat_round rt = record rt {
  stats = record rt.stats { heartbeat_messages = rt.heartbeat_messages + 1 };
}

pub step : RuntimeState → Section → RuntimeState
step rt peer_connected = on_peer_connected rt
step rt peer_disconnected = on_peer_disconnected rt
step rt network_down = on_network_down rt
step rt network_up = on_network_up rt
step rt heartbeat_lost = on_heartbeat_lost rt
step rt telemetry_received = on_telemetry_message_received rt
step rt webrtc_error = on_webrtc_error rt
step rt (command source command_name) = (apply_command rt source command_name).0
step rt status_update = publish_status_update rt
step rt camera_tick = camera_round rt
step rt telemetry_tick = telemetry_round rt
step rt heartbeat_tick = heartbeat_round rt

pub run : RuntimeState → List Section → RuntimeState
run rt [] = rt
run rt (s ∷ rest) = run (step rt s) rest

-- A command from a given source.
abbrev pub IsCommand : String → Section → Type 0
IsCommand name (command source command_name) = command_name ≡ name
IsCommand name _ = ⊥

abbrev pub All : (Section → Type 0) → List Section → Type 0
All P [] = Unit
All P (s ∷ rest) = P s × All P rest
