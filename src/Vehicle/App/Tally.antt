-- ===== src/Vehicle/App/Tally.antt =====
-- The counters of the vehicle's runtime state against the sections that ran.
use whl_air.Base.{ℕ, ◌+◌, ◌≤◌, ◌==◌, ◌≡◌, Bool, true, false, List, [], ◌∷◌, arith, if◌then◌else◌}
use whl_air.Vehicle.Runtime.{
  RuntimeState, on_peer_connected, on_peer_disconnected, on_network_down, on_network_up,
  on_heartbeat_lost, on_telemetry_message_received, on_webrtc_error, push_mode,
}
use whl_air.Vehicle.Runtime.Counters.{apply_command-counters}
use whl_air.Vehicle.App.{
  Section, peer_connected, peer_disconnected, network_down, network_up, heartbeat_lost,
  telemetry_received, webrtc_error, command, step, run, publish_status_update, camera_round,
  telemetry_round, heartbeat_round,
}

-- How often a test holds along a history.
abbrev pub count : (Section → Bool) → List Section → ℕ
count test [] = 0
count test (s ∷ rest) = (if test s then 1 else 0) + count test rest

abbrev pub is_peer_connected : Section → Bool
is_peer_connected peer_connected = true
is_peer_connected _ = false

abbrev pub is_peer_disconnected : Section → Bool
is_peer_disconnected peer_disconnected = true
is_peer_disconnected _ = false

abbrev pub is_network_down : Section → Bool
is_network_down network_down = true
is_network_down _ = false

abbrev pub is_network_up : Section → Bool
is_network_up network_up = true
is_network_up _ = false

abbrev pub is_heartbeat_lost : Section → Bool
is_heartbeat_lost heartbeat_lost = true
is_heartbeat_lost _ = false

abbrev pub is_telemetry_received : Section → Bool
is_telemetry_received telemetry_received = true
is_telemetry_received _ = false

abbrev pub is_webrtc_error : Section → Bool
is_webrtc_error webrtc_error = true
is_webrtc_error _ = false

abbrev pub is_from_control_channel : Section → Bool
is_from_control_channel (command source name) = source == "control_channel"
is_from_control_channel _ = false

abbrev pub is_command : Section → Bool
is_command (command source name) = true
is_command _ = false

-- What forces a safe stop: the emergency command and the three kinds of fault.
abbrev pub is_emergency : Section → Bool
is_emergency (command source name) = name == "EMERGENCY_STOP"
is_emergency network_down = true
is_emergency heartbeat_lost = true
is_emergency webrtc_error = true
is_emergency _ = false

-- `after` is `before` with its event counters advanced by what `history` holds.
pub record IsTallied (before : RuntimeState) (history : List Section) (after : RuntimeState)
    : Type 0 where
  pub peers_up :
      after.peer_connected_events ≡ before.peer_connected_events + count is_peer_connected history
  pub peers_down :
      after.peer_disconnected_events
      ≡ before.peer_disconnected_events + count is_peer_disconnected history
  pub downs : after.network_down_events ≡ before.network_down_events + count is_network_down history
  pub ups : after.network_up_events ≡ before.network_up_events + count is_network_up history
  pub lost :
      after.heartbeat_lost_events ≡ before.heartbeat_lost_events + count is_heartbeat_lost history
  pub telemetry :
      after.telemetry_messages_received
      ≡ before.telemetry_messages_received + count is_telemetry_received history
  pub errors : after.webrtc_errors ≡ before.webrtc_errors + count is_webrtc_error history
  pub controls :
      after.control_messages_received
      ≡ before.control_messages_received + count is_from_control_channel history
  pub emergencies :
      after.emergency_commands_received
      ≡ before.emergency_commands_received + count is_emergency history
  pub acks : after.command_acks ≤ before.command_acks + count is_command history

step-IsTallied : (rt : RuntimeState) (s : Section) → IsTallied rt (s ∷ []) (step rt s)
unfolding step
step-IsTallied rt (command source name) =
    let c = apply_command-counters rt source name in omega (arith, c)
step-IsTallied rt _ =
    unfold on_peer_connected on_peer_disconnected on_network_down on_network_up on_heartbeat_lost
      on_telemetry_message_received on_webrtc_error push_mode publish_status_update camera_round
      telemetry_round heartbeat_round in
    omega arith

IsTallied-trans :
    (a b c : RuntimeState) (s : Section) (rest : List Section)
    → IsTallied a (s ∷ []) b
    → IsTallied b rest c
    → IsTallied a (s ∷ rest) c
IsTallied-trans a b c s rest x y = record {
  peers_up = omega (arith, x.peers_up, y.peers_up);
  peers_down = omega (arith, x.peers_down, y.peers_down);
  downs = omega (arith, x.downs, y.downs);
  ups = omega (arith, x.ups, y.ups);
  lost = omega (arith, x.lost, y.lost);
  telemetry = omega (arith, x.telemetry, y.telemetry);
  errors = omega (arith, x.errors, y.errors);
  controls = omega (arith, x.controls, y.controls);
  emergencies = omega (arith, x.emergencies, y.emergencies);
  acks = omega (arith, x.acks, y.acks);
}

run-IsTallied : (rt : RuntimeState) (history : List Section) → IsTallied rt history (run rt history)
unfolding run
run-IsTallied rt [] = omega arith
run-IsTallied rt (s ∷ rest) =
    IsTallied-trans rt (step rt s) (run (step rt s) rest) s rest (step-IsTallied rt s)
      (run-IsTallied (step rt s) rest)

abbrev pub length : List Section → ℕ
length [] = 0
length (s ∷ rest) = 1 + length rest

-- The event counters are ints of 32 bits, also when each of them grows by the number.
pub record HasRoom (room : ℕ) (rt : RuntimeState) : Type 0 where
  pub peers_up : rt.peer_connected_events + room ≤ 2147483647
  pub peers_down : rt.peer_disconnected_events + room ≤ 2147483647
  pub downs : rt.network_down_events + room ≤ 2147483647
  pub ups : rt.network_up_events + room ≤ 2147483647
  pub lost : rt.heartbeat_lost_events + room ≤ 2147483647
  pub telemetry : rt.telemetry_messages_received + room ≤ 2147483647
  pub errors : rt.webrtc_errors + room ≤ 2147483647
  pub controls : rt.control_messages_received + room ≤ 2147483647
  pub emergencies : rt.emergency_commands_received + room ≤ 2147483647
  pub acks : rt.command_acks + room ≤ 2147483647

count-lengthgth :
    (test : Section → Bool) (history : List Section) → count test history ≤ length history
count-lengthgth test [] = omega arith
count-lengthgth test (s ∷ rest) = ground (arith, count-lengthgth test rest)

-- If none of the event counters can pass the largest int of 32 bits by as many steps as the
-- interleaving has sections, then none of them does, and after it each has grown by the number of its
-- events, the emergency counter by the number of EMERGENCY_STOP commands, network losses, heartbeat
-- losses and WebRTC errors, and the acknowledgements by no more than the number of commands.
pub run-HasRoom :
    (rt : RuntimeState) (history : List Section)
    → HasRoom (length history) rt
    → HasRoom 0 (run rt history) × IsTallied rt history (run rt history)
run-HasRoom rt history h =
    let t = run-IsTallied rt history in
    (
      record {
        peers_up = omega (arith, t.peers_up, h.peers_up, count-lengthgth is_peer_connected history);
        peers_down =
            omega (arith, t.peers_down, h.peers_down, count-lengthgth is_peer_disconnected history);
        downs = omega (arith, t.downs, h.downs, count-lengthgth is_network_down history);
        ups = omega (arith, t.ups, h.ups, count-lengthgth is_network_up history);
        lost = omega (arith, t.lost, h.lost, count-lengthgth is_heartbeat_lost history);
        telemetry =
            omega (arith, t.telemetry, h.telemetry, count-lengthgth is_telemetry_received history);
        errors = omega (arith, t.errors, h.errors, count-lengthgth is_webrtc_error history);
        controls =
            omega (arith, t.controls, h.controls, count-lengthgth is_from_control_channel history);
        emergencies =
            omega (arith, t.emergencies, h.emergencies, count-lengthgth is_emergency history);
        acks = omega (arith, t.acks, h.acks, count-lengthgth is_command history);
      },
      t,
    )
