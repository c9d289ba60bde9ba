-- ===== src/Vehicle/Runtime.antt =====
-- vehicle_client/domain/runtime_state.{h,cc}: the vehicle's shared runtime state and the event
-- handlers that change it. Each handler holds `runtime->mutex` from its first to its last line, so
-- it is one atomic function from state to state. Speeds are in whole metres per second (the code
-- stores 0.0 and 6.0 only); the counters are natural numbers.
pub mod Safety
pub mod Trace
pub mod Counters
use whl_air.Base.{
  ℕ, ◌+◌, String, ◌==◌, Bool, true, false, not, ◌&&◌, Option, none, some, List, [], if◌then◌else◌,
}
use whl_air.Timeline

-- The counters of `RuntimeStats`, and its timeline.
pub record RuntimeStats : Type 0 where
  pub camera_frames : ℕ
  pub telemetry_messages : ℕ
  pub telemetry_sent : ℕ
  pub telemetry_messages_received : ℕ
  pub heartbeat_messages : ℕ
  pub command_acks : ℕ
  pub control_messages_received : ℕ
  pub emergency_commands_received : ℕ
  pub webrtc_errors : ℕ
  pub peer_connected_events : ℕ
  pub peer_disconnected_events : ℕ
  pub network_up_events : ℕ
  pub network_down_events : ℕ
  pub heartbeat_lost_events : ℕ
  pub video_frames_sent : ℕ
  pub status_updates : ℕ
  pub mode_timeline : List String

pub record RuntimeState : Type 0 where
  pub mode : String
  pub emergency : Bool
  pub speed_mps : ℕ
  pub gear : ℕ
  pub peer_connected : Bool
  pub stats : RuntimeStats
  pub open stats use *

-- The state as the declarations of the header initialise it.
abbrev pub initial : RuntimeState
initial = record {
  mode = "AUTO";
  emergency = false;
  speed_mps = 0;
  gear = 0;
  peer_connected = false;
  stats = record {
    camera_frames = 0;
    telemetry_messages = 0;
    telemetry_sent = 0;
    telemetry_messages_received = 0;
    heartbeat_messages = 0;
    command_acks = 0;
    control_messages_received = 0;
    emergency_commands_received = 0;
    webrtc_errors = 0;
    peer_connected_events = 0;
    peer_disconnected_events = 0;
    network_up_events = 0;
    network_down_events = 0;
    heartbeat_lost_events = 0;
    video_frames_sent = 0;
    status_updates = 0;
    mode_timeline = [];
  };
}

unfoldable pub push_mode : RuntimeState → String → RuntimeState
push_mode rt mode = record rt {
  stats = record rt.stats { mode_timeline = Timeline.push rt.mode_timeline mode };
}

unfoldable pub on_peer_connected : RuntimeState → RuntimeState
on_peer_connected rt =
    let mode : String = if rt.emergency then "SAFE_STOP" else "AUTO" in
    let pushed =
      push_mode
        (record rt {
          peer_connected = true;
          mode = mode;
          speed_mps = 0;
          gear = if rt.emergency then 0 else rt.gear;
        })
        mode in
    record pushed {
      stats = record pushed.stats { peer_connected_events = pushed.peer_connected_events + 1 };
    }

unfoldable pub on_peer_disconnected : RuntimeState → RuntimeState
on_peer_disconnected rt =
    let mode : String = if rt.emergency then "SAFE_STOP" else "AUTO" in
    let pushed =
      push_mode (record rt { peer_connected = false; speed_mps = 0; gear = 0; mode = mode }) mode in
    record pushed {
      stats = record pushed.stats {
        peer_disconnected_events = pushed.peer_disconnected_events + 1;
      };
    }

-- The assignments that network loss, heartbeat loss, WebRTC errors and EMERGENCY_STOP share.
unfoldable pub safe_stop : RuntimeState → RuntimeState
safe_stop rt =
    push_mode (record rt { mode = "SAFE_STOP"; emergency = true; speed_mps = 0; gear = 0 })
      "SAFE_STOP"

unfoldable pub on_network_down : RuntimeState → RuntimeState
unfolding safe_stop
on_network_down rt =
    let stopped = safe_stop (record rt { peer_connected = false }) in
    record stopped {
      stats = record stopped.stats {
        network_down_events = stopped.network_down_events + 1;
        emergency_commands_received = stopped.emergency_commands_received + 1;
      };
    }

unfoldable pub on_network_up : RuntimeState → RuntimeState
on_network_up rt =
    let mode : String = if rt.emergency then "SAFE_STOP" else "AUTO" in
    let pushed = push_mode (record rt { peer_connected = true; mode = mode; speed_mps = 0 }) mode in
    record pushed {
      stats = record pushed.stats { network_up_events = pushed.network_up_events + 1 };
    }

unfoldable pub on_heartbeat_lost : RuntimeState → RuntimeState
unfolding safe_stop
on_heartbeat_lost rt =
    let stopped = safe_stop rt in
    record stopped {
      stats = record stopped.stats {
        heartbeat_lost_events = stopped.heartbeat_lost_events + 1;
        emergency_commands_received = stopped.emergency_commands_received + 1;
      };
    }

unfoldable pub on_telemetry_message_received : RuntimeState → RuntimeState
on_telemetry_message_received rt = record rt {
  stats = record rt.stats { telemetry_messages_received = rt.telemetry_messages_received + 1 };
}

unfoldable pub on_webrtc_error : RuntimeState → RuntimeState
unfolding safe_stop
on_webrtc_error rt = safe_stop (record rt {
  stats = record rt.stats {
    webrtc_errors = rt.webrtc_errors + 1;
    emergency_commands_received = rt.emergency_commands_received + 1;
  };
})

-- The counters that `ApplyCommand` changes before it looks at the mode.
unfoldable pub count_command : RuntimeState → String → String → RuntimeState
count_command rt source command_name = record rt {
  stats = record rt.stats {
    control_messages_received =
        if source == "control_channel"
        then rt.control_messages_received + 1
        else rt.control_messages_received;
    emergency_commands_received =
        if command_name == "EMERGENCY_STOP"
        then rt.emergency_commands_received + 1
        else rt.emergency_commands_received;
  };
}

-- The chain of `if`s of `ApplyCommand`: the new state, or `none` where it returns false.
unfoldable pub transition : RuntimeState → String → Option RuntimeState
unfolding safe_stop
transition rt command_name =
    if command_name == "TAKEOVER_REQUEST" && rt.mode == "AUTO"
    then some (push_mode (record rt { mode = "REMOTE_CONTROL"; gear = 1 }) "REMOTE_CONTROL")
    else if command_name == "FORWARD" && rt.mode == "REMOTE_CONTROL" && not rt.emergency
    then some (record rt { speed_mps = 6 })
    else if command_name == "STOP" && rt.mode == "REMOTE_CONTROL"
    then some (record rt { speed_mps = 0 })
    else if command_name == "EMERGENCY_STOP"
    then some (safe_stop rt)
    else if command_name == "RECOVER_AUTO" && rt.mode == "SAFE_STOP"
    then some
        (push_mode (record rt { mode = "AUTO"; emergency = false; speed_mps = 0; gear = 0 }) "AUTO")
    else none

-- `++stats.command_acks; return true` after a transition, `return false` without one.
unfoldable pub acknowledge : RuntimeState → Option RuntimeState → RuntimeState × Bool
acknowledge counted none = (counted, false)
acknowledge counted (some next) =
    (record next { stats = record next.stats { command_acks = next.command_acks + 1 } }, true)

unfoldable pub apply_command : RuntimeState → String → String → RuntimeState × Bool
unfolding acknowledge count_command
apply_command rt source command_name =
    let counted = count_command rt source command_name in
    acknowledge counted (transition counted command_name)
