-- ===== src/Cockpit/Runtime.antt =====
-- cockpit_client/domain/runtime_state.{h,cc}: the cockpit's shared runtime state and the event
-- handlers that change it. Each handler holds `runtime->mutex` from its first to its last line, so
-- it is one atomic function from state to state. Speeds are in whole metres per second (the code
-- stores 0.0 and 6.0 only); the counters are natural numbers.
pub mod Safety
pub mod Counters
use whl_air.Base.{
  ℕ, ◌+◌, String, ◌==◌, Bool, true, false, not, ◌&&◌, Option, none, some, List, [], if◌then◌else◌,
}
use whl_air.Base.Int.{ℤ}
use whl_air.Timeline
use whl_air.Cockpit.Clients

pub record RuntimeStats : Type 0 where
  pub heartbeats : ℕ
  pub commands_sent : ℕ
  pub command_acks : ℕ
  pub telemetry_received : ℕ
  pub telemetry_broadcasts : ℕ
  pub ws_connected_events : ℕ
  pub ws_disconnected_events : ℕ
  pub ws_messages_received : ℕ
  pub input_commands_received : ℕ
  pub peer_connected_events : ℕ
  pub peer_disconnected_events : ℕ
  pub network_up_events : ℕ
  pub network_down_events : ℕ
  pub heartbeat_lost_events : ℕ
  pub status_updates : ℕ
  pub state_timeline : List String

pub record RuntimeState : Type 0 where
  pub session_state : String
  pub vehicle_mode : String
  pub emergency : Bool
  pub expected_speed_mps : ℕ
  pub connected : Bool
  pub ws_clients : List ℤ
  pub stats : RuntimeStats
  pub open stats use *

-- The state as the declarations of the header initialise it.
abbrev pub initial : RuntimeState
initial = record {
  session_state = "DISCONNECTED";
  vehicle_mode = "AUTO";
  emergency = false;
  expected_speed_mps = 0;
  connected = false;
  ws_clients = [];
  stats = record {
    heartbeats = 0;
    commands_sent = 0;
    command_acks = 0;
    telemetry_received = 0;
    telemetry_broadcasts = 0;
    ws_connected_events = 0;
    ws_disconnected_events = 0;
    ws_messages_received = 0;
    input_commands_received = 0;
    peer_connected_events = 0;
    peer_disconnected_events = 0;
    network_up_events = 0;
    network_down_events = 0;
    heartbeat_lost_events = 0;
    status_updates = 0;
    state_timeline = [];
  };
}

unfoldable pub push_state : RuntimeState → String → RuntimeState
push_state rt state = record rt {
  stats = record rt.stats { state_timeline = Timeline.push rt.state_timeline state };
}

unfoldable pub on_ws_connected : RuntimeState → ℤ → RuntimeState
on_ws_connected rt conn_id = record rt {
  ws_clients = Clients.insert conn_id rt.ws_clients;
  stats = record rt.stats { ws_connected_events = rt.ws_connected_events + 1 };
}

unfoldable pub on_ws_disconnected : RuntimeState → ℤ → RuntimeState
on_ws_disconnected rt conn_id = record rt {
  ws_clients = Clients.erase conn_id rt.ws_clients;
  stats = record rt.stats { ws_disconnected_events = rt.ws_disconnected_events + 1 };
}

unfoldable pub on_peer_connected : RuntimeState → RuntimeState
on_peer_connected rt =
    let attached = record rt { connected = true } in
    let updated : RuntimeState = if rt.emergency then attached else record attached {
      session_state = "CONNECTED";
      vehicle_mode = "AUTO";
      expected_speed_mps = 0;
    } in
    let pushed = push_state updated updated.session_state in
    record pushed {
      stats = record pushed.stats { peer_connected_events = pushed.peer_connected_events + 1 };
    }

unfoldable pub on_peer_disconnected : RuntimeState → RuntimeState
on_peer_disconnected rt =
    let pushed =
      push_state
        (record rt {
          connected = false;
          session_state = "DISCONNECTED";
          vehicle_mode = "AUTO";
          expected_speed_mps = 0;
        })
        "DISCONNECTED" in
    record pushed {
      stats = record pushed.stats {
        peer_disconnected_events = pushed.peer_disconnected_events + 1;
      };
    }

unfoldable pub on_network_down : RuntimeState → RuntimeState
on_network_down rt =
    let pushed =
      push_state
        (record rt { connected = false; session_state = "RECONNECTING"; expected_speed_mps = 0 })
        "RECONNECTING" in
    record pushed {
      stats = record pushed.stats { network_down_events = pushed.network_down_events + 1 };
    }

unfoldable pub on_network_up : RuntimeState → RuntimeState
on_network_up rt =
    let state : String = if rt.emergency then "SAFE_STOP" else "CONNECTED" in
    let pushed =
      push_state
        (record rt {
          connected = true;
          session_state = state;
          vehicle_mode = if rt.emergency then "SAFE_STOP" else "AUTO";
          expected_speed_mps = 0;
        })
        state in
    record pushed {
      stats = record pushed.stats { network_up_events = pushed.network_up_events + 1 };
    }

-- The assignments that heartbeat loss and EMERGENCY_STOP share.
unfoldable pub safe_stop : RuntimeState → RuntimeState
safe_stop rt =
    push_state
      (record rt {
        session_state = "SAFE_STOP";
        vehicle_mode = "SAFE_STOP";
        emergency = true;
        expected_speed_mps = 0;
      })
      "SAFE_STOP"

unfoldable pub on_heartbeat_lost : RuntimeState → RuntimeState
unfolding safe_stop
on_heartbeat_lost rt =
    let stopped = safe_stop rt in
    record stopped {
      stats = record stopped.stats { heartbeat_lost_events = stopped.heartbeat_lost_events + 1 };
    }

-- The tests of ApplyCommand in their order: the new state, or `none` where it returns false.
unfoldable pub transition : RuntimeState → String → Option RuntimeState
unfolding safe_stop
transition rt command_name =
    if not rt.connected && not (command_name == "EMERGENCY_STOP")
    then none
    else if command_name == "TAKEOVER_REQUEST" && rt.session_state == "CONNECTED"
    then some (
        push_state (record rt { session_state = "REMOTE_CONTROL"; vehicle_mode = "REMOTE_CONTROL" })
          "REMOTE_CONTROL")
    else if command_name == "FORWARD" && rt.session_state == "REMOTE_CONTROL" && not rt.emergency
    then some (record rt { expected_speed_mps = 6 })
    else if command_name == "STOP" && rt.session_state == "REMOTE_CONTROL"
    then some (record rt { expected_speed_mps = 0 })
    else if command_name == "EMERGENCY_STOP"
    then some (safe_stop rt)
    else if command_name == "RECOVER_AUTO" && rt.session_state == "SAFE_STOP" && rt.connected
    then some (
        push_state
          (record rt {
            session_state = "CONNECTED";
            vehicle_mode = "AUTO";
            emergency = false;
            expected_speed_mps = 0;
          })
          "CONNECTED")
    else none

-- The counters of an accepted command.
unfoldable pub count_command : RuntimeState → String → RuntimeState
count_command rt source = record rt {
  stats = record rt.stats {
    commands_sent = rt.commands_sent + 1;
    command_acks = rt.command_acks + 1;
    ws_messages_received =
        if source == "web" then rt.ws_messages_received + 1 else rt.ws_messages_received;
    input_commands_received =
        if source == "web"
        then rt.input_commands_received
        else if source == "input"
        then rt.input_commands_received + 1
        else rt.input_commands_received;
  };
}

unfoldable pub acknowledge : RuntimeState → String → Option RuntimeState → RuntimeState × Bool
unfolding count_command
acknowledge rt source none = (rt, false)
acknowledge rt source (some next) = (count_command next source, true)

unfoldable pub apply_command : RuntimeState → String → String → RuntimeState × Bool
unfolding acknowledge
apply_command rt source command_name = acknowledge rt source (transition rt command_name)
