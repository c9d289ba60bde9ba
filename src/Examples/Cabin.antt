-- ===== src/Examples/Cabin.antt =====
-- Concrete runs of the cockpit client.
use whl_air.Base.{
  ◌≤◌, none, some, String, ◌≡◌, ◌≢◌, refl, true, false, List, [], ◌∷◌, ◌++◌, arith, eq_iff,
}
use whl_air.Base.Int.{pos}
use whl_air.Cockpit.Clients.{member, IsSetOfIds}
use whl_air.Cockpit.Runtime.{
  RuntimeState, initial, on_peer_connected, on_peer_disconnected, on_heartbeat_lost, push_state,
  apply_command,
}
use whl_air.Cockpit.Runtime.Safety.{IsConsistent}
use whl_air.Cockpit.Runtime.Counters.{reconnect_in_emergency}
use whl_air.Base.Int.{pos}
use whl_air.Signaling.Serialize.{to_string}
use whl_air.Vehicle.Sensors.Chassis.Arithmetic.{Twentieths}
use whl_air.Vehicle.Sensors.Chassis.Loop.{Chassis}
use whl_air.Cockpit.Drivers.{WebSocketVideoSink, created, process_incoming_telemetry, on_frame}
use whl_air.Cockpit.Drivers.Telemetry.{
  init_all, latest, IsDisplayed, process_incoming_telemetry-IsDisplayed,
}
use whl_air.Cockpit.Drivers.Video.{IsStreamed, on_frame-IsStreamed}
use whl_air.Cockpit.Commands.{parse_web_command_name}
use whl_air.StringMap
use whl_air.Cockpit.Config.{RuntimeConfig, default, load_config, cockpit_config_in_range}
use whl_air.Cockpit.App.{
  Section, ws_connected, ws_disconnected, peer_connected, network_down, command, heartbeat_tick,
  telemetry_tick, status_update, run, started, begin_connecting,
}
use whl_air.Cockpit.App.Recovery.{IsIn, reconnect_and_drive}
use whl_air.Cockpit.App.History.{run-started-IsConsistent, attached, run-attached}

abbrev waiting : List Section
waiting = heartbeat_tick ∷ telemetry_tick ∷ []

abbrev session : List Section
session =
    ws_connected (pos 7)
    ∷ peer_connected
    ∷ command "ws" "TAKEOVER_REQUEST"
    ∷ command "ws" "FORWARD"
    ∷ ws_connected (pos 8)
    ∷ ws_disconnected (pos 7)
    ∷ network_down
    ∷ []

run-started-IsConsistent_example :
    IsConsistent (run (begin_connecting (run started waiting)) session)
run-started-IsConsistent_example = run-started-IsConsistent waiting session (tt, (tt, tt))

run-attached_example :
    IsSetOfIds (run initial session).ws_clients
    × (member (pos 7) (run initial session).ws_clients
        ≡ attached (pos 7) (member (pos 7) []) session)
run-attached_example = run-attached initial session (pos 7) tt

abbrev down : RuntimeState
down = on_heartbeat_lost initial

emergency : down.emergency ≡ true
unfolding on_heartbeat_lost push_state
emergency = refl

not_recover : ◌≢◌ {A = String} "RECOVER_AUTO" "EMERGENCY_STOP"
not_recover = ground (arith, eq_iff "RECOVER_AUTO" "EMERGENCY_STOP")

reconnect_in_emergency_example :
    let back = on_peer_connected (on_peer_disconnected down) in
    (back.connected ≡ true)
    × (back.session_state ≡ "DISCONNECTED")
    × (back.vehicle_mode ≡ "AUTO")
    × (back.emergency ≡ true)
    × (apply_command back "ws" "RECOVER_AUTO" ≡ (back, false))
reconnect_in_emergency_example =
    reconnect_in_emergency down "ws" "RECOVER_AUTO" emergency not_recover

-- The three forms of a web command.
plain_command : parse_web_command_name " FORWARD\n" ≡ "FORWARD"
unfolding parse_web_command_name
plain_command = refl

query_command : parse_web_command_name "id=4, cmd=STOP, x" ≡ "STOP"
unfolding parse_web_command_name
query_command = refl

json_command : parse_web_command_name "{\"cmd\" : \"TAKEOVER_REQUEST\"}" ≡ "TAKEOVER_REQUEST"
unfolding parse_web_command_name
json_command = refl

-- A configuration file, and what it is read as.
abbrev config_lines : List String
config_lines = "heartbeat_interval_ms = -5" ∷ "connect_delay_ms=x" ∷ "target_vehicle_id=car-7" ∷ []

abbrev cabin_config : RuntimeConfig
cabin_config = record default { target_vehicle_id = "car-7"; heartbeat_interval_ms = 100 }

config_lines_load : load_config (some config_lines) default ≡ some cabin_config
unfolding load_config StringMap.find StringMap.insert
config_lines_load = refl

cockpit_config_in_range_example :
    (100 ≤ cabin_config.heartbeat_interval_ms)
    × (20 ≤ cabin_config.telemetry_interval_ms)
    × (10 ≤ cabin_config.connect_delay_ms)
cockpit_config_in_range_example =
    cockpit_config_in_range (some config_lines) cabin_config config_lines_load

-- The peer is lost in an emergency and comes back.
reconnect_and_drive_example :
    let before = run (on_peer_disconnected down) (
      peer_connected
      ∷ command "web" "EMERGENCY_STOP"
      ∷ ((ws_disconnected (pos 7) ∷ telemetry_tick ∷ [])
          ++ (command "web" "RECOVER_AUTO"
              ∷ ((status_update ∷ []) ++ (command "web" "TAKEOVER_REQUEST" ∷ []))))) in
    let (after, accepted) = apply_command before "web" "FORWARD" in
    IsIn "REMOTE_CONTROL" "REMOTE_CONTROL" false after
    × (after.expected_speed_mps ≡ 6)
    × (accepted ≡ true)
reconnect_and_drive_example =
    reconnect_and_drive (on_peer_disconnected down) "web"
      (ws_disconnected (pos 7) ∷ telemetry_tick ∷ []) (status_update ∷ []) [] (tt, (tt, tt))
      (tt, tt) tt

-- Twentieths, for `std::to_string` of a double.
abbrev shown : Twentieths → String
shown none = "nan"
shown (some n) = "0.100000"

abbrev state : Chassis Twentieths
state = record {
  speed_mps = some 2;
  gear = pos 1;
  throttle_percentage = some 0;
  brake_percentage = some 0;
  steering_percentage = some 0;
}

process_incoming_telemetry-IsDisplayed_example :
    IsDisplayed
      (latest none (some 3 ∷ none ∷ []))
      (process_incoming_telemetry shown (init_all created (some 3 ∷ none ∷ [])) "car" state)
      "0.100000"
      (to_string (pos 1))
process_incoming_telemetry-IsDisplayed_example =
    process_incoming_telemetry-IsDisplayed shown (some 3 ∷ none ∷ []) "car" state (ground arith)

abbrev front : WebSocketVideoSink
front = record { transport_server = some 3; stream_id = "front" }

on_frame-IsStreamed_example : IsStreamed (some 3) (on_frame to_string front (pos 40)) "front"
on_frame-IsStreamed_example = on_frame-IsStreamed to_string front (pos 40) (ground arith)
