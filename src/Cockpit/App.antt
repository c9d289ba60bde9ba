-- ===== src/Cockpit/App.antt =====
-- cockpit_client/cockpit_client_app.cc: the threads of the cockpit client as sequences of critical
-- sections. A thread touches the runtime state only while it holds `runtime->mutex`, so a run of the
-- program is a list of such sections in the order in which the lock was taken. Log output is left out.
pub mod History
pub mod SelfTest
pub mod Quiet
pub mod Await
pub mod Verdict
pub mod Recovery
use whl_air.Base.{◌+◌, String, List, [], ◌∷◌, if◌then◌else◌}
use whl_air.Base.Int.{ℤ}
use whl_air.Cockpit.Clients
use whl_air.Cockpit.Runtime.{
  RuntimeState, initial, push_state, on_ws_connected, on_ws_disconnected, on_peer_connected,
  on_peer_disconnected, on_network_down, on_network_up, on_heartbeat_lost, apply_command,
}

-- One critical section of one thread, but for the one that `connection_loop` begins with.
pub data Section : Type 0 where
  ws_connected ws_disconnected : ℤ → Section
  peer_connected peer_disconnected network_down network_up heartbeat_lost : Section
  command : String → String → Section
  status_update heartbeat_tick telemetry_tick : Section

-- `publish_status_update`; its arguments are printed only.
pub publish_status_update : RuntimeState → RuntimeState
publish_status_update rt = record rt {
  stats = record rt.stats { status_updates = rt.status_updates + 1 };
}

-- The body of one round of `heartbeat_loop`.
pub heartbeat_round : RuntimeState → RuntimeState
heartbeat_round rt = record rt { stats = record rt.stats { heartbeats = rt.heartbeats + 1 } }

-- The body of one round of `telemetry_loop`.
pub telemetry_round : RuntimeState → RuntimeState
telemetry_round rt =
    if rt.connected
    then record rt {
      stats = record rt.stats {
        telemetry_received = rt.telemetry_received + 1;
        telemetry_broadcasts = rt.telemetry_broadcasts + Clients.size rt.ws_clients;
      };
    }
    else rt

-- The first critical section of `connection_loop`.
pub begin_connecting : RuntimeState → RuntimeState
begin_connecting rt = push_state (record rt { session_state = "CONNECTING" }) "CONNECTING"

-- The state with which `main` starts the threads: the initial session state is pushed once.
pub started : RuntimeState
started = push_state initial "DISCONNECTED"

pub step : RuntimeState → Section → RuntimeState
step rt (ws_connected id) = on_ws_connected rt id
step rt (ws_disconnected id) = on_ws_disconnected rt id
step rt peer_connected = on_peer_connected rt
step rt peer_disconnected = on_peer_disconnected rt
step rt network_down = on_network_down rt
step rt network_up = on_network_up rt
step rt heartbeat_lost = on_heartbeat_lost rt
step rt (command source command_name) = (apply_command rt source command_name).0
step rt status_update = publish_status_update rt
step rt heartbeat_tick = heartbeat_round rt
step rt telemetry_tick = telemetry_round rt

pub run : RuntimeState → List Section → RuntimeState
run rt [] = rt
run rt (s ∷ rest) = run (step rt s) rest

-- The rounds of the two background loops.
abbrev pub IsBackground : Section → Type 0
IsBackground heartbeat_tick = Unit
IsBackground telemetry_tick = Unit
IsBackground _ = ⊥

abbrev pub All : (Section → Type 0) → List Section → Type 0
All P [] = Unit
All P (s ∷ rest) = P s × All P rest
