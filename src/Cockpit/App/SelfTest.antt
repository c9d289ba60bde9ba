-- ===== src/Cockpit/App/SelfTest.antt =====
-- run_self_test of cockpit_client/cockpit_client_app.cc: the main thread's handlers and commands, with
-- what the other threads do and whether a stop is requested in between. The numbers of the command
-- ids, which are printed only, are left out.
use whl_air.Base.{
  ℕ, String, ◌==◌, ltb, eqb, Bool, true, false, not, ◌&&◌, none, some, List, [], ◌∷◌,
}
use whl_air.Base.Int.{ℤ, pos}
use whl_air.SelfTest.{Moment, Step, does, demands, perform, from_cursor, is_at_end}
use whl_air.Cockpit.Clients
use whl_air.Cockpit.Runtime.{RuntimeState}
use whl_air.Cockpit.Commands.{handle_ws_message, handle_input_command}
use whl_air.Cockpit.App.{
  Section, ws_connected, ws_disconnected, peer_connected, peer_disconnected, network_down,
  network_up, heartbeat_lost, status_update, step, publish_status_update, heartbeat_round,
  telemetry_round,
}

-- What the other threads do: rounds of the loops, and the `publish_status_update` with which
-- `connection_loop` ends handle_peer_connected.
pub data Tick : Type 0 where
  heartbeat telemetry publish : Tick

unfoldable pub tick : RuntimeState → Tick → RuntimeState
unfolding heartbeat_round telemetry_round publish_status_update
tick rt heartbeat = heartbeat_round rt
tick rt telemetry = telemetry_round rt
tick rt publish = publish_status_update rt

-- What the test does: the tests with which the wait for a session ends; a critical section; a message of a web socket client; an input command.
pub data Action : Type 0 where
  wait : Action
  event : Section → Action
  ws_message input : String → Action

unfoldable pub act : RuntimeState → Action → RuntimeState × Bool
unfolding handle_ws_message handle_input_command
act rt wait = (rt, rt.connected)
act rt (event section) = (step rt section, true)
act rt (ws_message raw) =
    let (next, accepted, counter) = handle_ws_message rt raw 0 in (next, accepted)
act rt (input name) =
    let (next, accepted, counter) = handle_input_command rt name 0 in (next, accepted)

-- `handle_ws_connected` and its like: the handler, then `publish_status_update`.
abbrev handle : Section → List (Step Action) → List (Step Action)
handle section rest = does (event section) ∷ does (event status_update) ∷ rest

abbrev message : String → List (Step Action) → List (Step Action)
message raw rest = demands (ws_message raw) ∷ rest

abbrev pub ws_conn : ℤ
ws_conn = pos 101

abbrev pub script : List (Step Action)
script =
    demands wait
    ∷ handle (ws_connected ws_conn) (
        message "cmd=TAKEOVER_REQUEST" (
          demands (input "FORWARD")
          ∷ message "{\"cmd\":\"STOP\"}" (
              message "cmd=EMERGENCY_STOP" (
                handle network_down (
                  handle network_up (
                    demands (input "RECOVER_AUTO")
                    ∷ handle heartbeat_lost (
                        message "cmd=RECOVER_AUTO" (
                          handle peer_disconnected
                            (handle peer_connected (handle (ws_disconnected ws_conn) []))))))))))

abbrev pub expected_states : List String
expected_states =
    "DISCONNECTED" ∷ "CONNECTING" ∷ "CONNECTED" ∷ "REMOTE_CONTROL" ∷ "SAFE_STOP" ∷ "RECONNECTING"
    ∷ "SAFE_STOP" ∷ "CONNECTED" ∷ "SAFE_STOP" ∷ "CONNECTED" ∷ "DISCONNECTED" ∷ "CONNECTED" ∷ []

unfoldable pub ok : RuntimeState → Bool
unfolding from_cursor Clients.size
ok rt =
    ltb 0 rt.heartbeats
    && ltb 2 rt.telemetry_received
    && ltb 0 rt.telemetry_broadcasts
    && ltb 5 rt.commands_sent
    && ltb 5 rt.command_acks
    && ltb 0 rt.ws_connected_events
    && ltb 0 rt.ws_disconnected_events
    && ltb 3 rt.ws_messages_received
    && ltb 1 rt.input_commands_received
    && ltb 1 rt.peer_connected_events
    && ltb 0 rt.peer_disconnected_events
    && ltb 0 rt.network_up_events
    && ltb 0 rt.network_down_events
    && ltb 0 rt.heartbeat_lost_events
    && ltb 4 rt.status_updates
    && is_at_end (from_cursor expected_states rt.state_timeline)
    && rt.connected
    && rt.session_state == "CONNECTED"
    && rt.vehicle_mode == "AUTO"
    && not rt.emergency
    && eqb (Clients.size rt.ws_clients) 0

-- From the state in which the wait for a session ends.
unfoldable pub run_self_test : RuntimeState → (ℕ → Moment Tick) → Bool
unfolding ok perform
run_self_test rt moments = elim (perform tick act moments 0 rt script) [
  | none ↦ false
  | some last ↦ ok last
]
