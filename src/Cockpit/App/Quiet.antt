-- ===== src/Cockpit/App/Quiet.antt =====
-- run_self_test of cockpit_client/cockpit_client_app.cc with and without the other threads.
use whl_air.Base.{String, ◌≡◌, refl, ap, ◌∙◌, Bool, true, Option, none, some, [], ◌∷◌, arith}
use whl_air.Timeline
use whl_air.Trim
use whl_air.Base.Int
use whl_air.Cockpit.Clients
use whl_air.Cockpit.Commands
use whl_air.Cockpit.Runtime.{
  RuntimeState, apply_command, transition, acknowledge, count_command, push_state, safe_stop,
  on_ws_connected, on_ws_disconnected, on_peer_connected, on_peer_disconnected, on_network_down,
  on_network_up, on_heartbeat_lost, initial,
}
use whl_air.Cockpit.App.{
  Section, ws_connected, ws_disconnected, peer_connected, peer_disconnected, network_down,
  network_up, heartbeat_lost, command, status_update, telemetry_tick, heartbeat_tick, step,
  publish_status_update, telemetry_round, heartbeat_round, started,
}
use whl_air.SelfTest.{seen, quiet}
use whl_air.Cockpit.App.SelfTest.{
  Tick, publish, telemetry, heartbeat, tick, Action, wait, event, ws_message, input, act, script,
  expected_states,
}

-- The state without the counters of the other threads.
abbrev pub core : RuntimeState → RuntimeState
core rt = record rt {
  stats = record rt.stats {
    heartbeats = 0;
    telemetry_received = 0;
    telemetry_broadcasts = 0;
    status_updates = 0;
  };
}

pub core-tick : (rt : RuntimeState) (t : Tick) → core (tick rt t) ≡ core rt
unfolding tick heartbeat_round telemetry_round publish_status_update
core-tick rt publish = refl
core-tick rt telemetry = ground arith
core-tick rt heartbeat = refl

core-transition :
    (rt : RuntimeState) (name : String)
    → elim (transition rt name) [ none ↦ none | some next ↦ some (core next) ]
      ≡ transition (core rt) name
unfolding transition safe_stop push_state
core-transition rt name = ground arith

core-acknowledge :
    (rt : RuntimeState) (source : String) (r : Option RuntimeState)
    → seen core (acknowledge rt source r)
      ≡ acknowledge (core rt) source (elim r [ none ↦ none | some next ↦ some (core next) ])
unfolding acknowledge count_command
core-acknowledge rt source none = refl
core-acknowledge rt source (some next) = refl

core-apply_command :
    (rt : RuntimeState) (source name : String)
    → seen core (apply_command rt source name) ≡ apply_command (core rt) source name
unfolding apply_command
core-apply_command rt source name =
    core-acknowledge rt source (transition rt name)
    ∙ ap (acknowledge (core rt) source) (core-transition rt name)

pub core-step : (rt : RuntimeState) (s : Section) → core (step rt s) ≡ core (step (core rt) s)
unfolding step on_ws_connected on_ws_disconnected on_peer_connected on_peer_disconnected
    on_network_down on_network_up on_heartbeat_lost safe_stop push_state publish_status_update
    telemetry_round heartbeat_round
core-step rt (ws_connected id) = refl
core-step rt (ws_disconnected id) = refl
core-step rt peer_connected = ground arith
core-step rt peer_disconnected = refl
core-step rt network_down = refl
core-step rt network_up = refl
core-step rt heartbeat_lost = refl
core-step rt (command source name) =
    ap (λ (r : RuntimeState × Bool). core r.0) (core-apply_command rt source name)
core-step rt status_update = refl
core-step rt telemetry_tick = ground arith
core-step rt heartbeat_tick = refl

pub core-act : (rt : RuntimeState) (a : Action) → seen core (act rt a) ≡ seen core (act (core rt) a)
unfolding act Commands.handle_ws_message Commands.handle_input_command Commands.process_command
core-act rt wait = refl
core-act rt (event section) = ap (λ r. (r, true)) (core-step rt section)
core-act rt (ws_message raw) =
    ap (λ (r : RuntimeState × Bool). seen core r)
      (core-apply_command rt "web" (Commands.parse_web_command_name raw))
core-act rt (input name) =
    ap (λ (r : RuntimeState × Bool). seen core r) (core-apply_command rt "input" name)

-- The start of the test, but for the counters of the other threads.
abbrev pub ready : RuntimeState
ready = record initial {
  session_state = "CONNECTED";
  connected = true;
  stats = record initial.stats {
    peer_connected_events = 1;
    state_timeline = "DISCONNECTED" ∷ "CONNECTING" ∷ "CONNECTED" ∷ [];
  };
}

-- The end of the test, but for the counters of the other threads.
abbrev pub final : RuntimeState
final = record ready {
  stats = record ready.stats {
    commands_sent = 6;
    command_acks = 6;
    ws_connected_events = 1;
    ws_disconnected_events = 1;
    ws_messages_received = 4;
    input_commands_received = 2;
    peer_connected_events = 2;
    peer_disconnected_events = 1;
    network_up_events = 1;
    network_down_events = 1;
    heartbeat_lost_events = 1;
    state_timeline = expected_states;
  };
}

pub quiet-script : quiet tick act core ready script ≡ some final
unfolding quiet act started push_state step on_ws_connected on_ws_disconnected on_peer_connected
    on_peer_disconnected on_network_down on_network_up on_heartbeat_lost safe_stop
    publish_status_update apply_command count_command transition acknowledge Timeline.push
    Commands.handle_ws_message Commands.handle_input_command Commands.process_command
    Commands.parse_web_command_name Commands.command_text Commands.json_value Trim.trim Trim.until
    Trim.drop_while Clients.insert Int.int_eq Clients.erase
quiet-script = refl
