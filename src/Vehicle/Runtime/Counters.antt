-- ===== src/Vehicle/Runtime/Counters.antt =====
-- What ApplyCommand does to the counters.
use whl_air.Base.{◌+◌, ◌≤◌, String, ◌≡◌, ◌==◌, Option, none, some, arith, if◌then◌else◌}
use whl_air.Vehicle.Runtime.{
  RuntimeState, count_command, transition, acknowledge, apply_command, push_mode,
}

-- The two states agree on the counters of events.
record Agrees (a b : RuntimeState) : Type 0 where
  pub peers_up : b.peer_connected_events ≡ a.peer_connected_events
  pub peers_down : b.peer_disconnected_events ≡ a.peer_disconnected_events
  pub downs : b.network_down_events ≡ a.network_down_events
  pub ups : b.network_up_events ≡ a.network_up_events
  pub lost : b.heartbeat_lost_events ≡ a.heartbeat_lost_events
  pub telemetry : b.telemetry_messages_received ≡ a.telemetry_messages_received
  pub errors : b.webrtc_errors ≡ a.webrtc_errors
  pub controls : b.control_messages_received ≡ a.control_messages_received
  pub emergencies : b.emergency_commands_received ≡ a.emergency_commands_received

Agrees-refl : (a : RuntimeState) → Agrees a a
Agrees-refl a = omega arith

abbrev Kept : RuntimeState → Option RuntimeState → Type 0
Kept a none = Unit
Kept a (some b) = Agrees a b × (b.command_acks ≡ a.command_acks)

transition-Kept : (rt : RuntimeState) (name : String) → Kept rt (transition rt name)
unfolding transition push_mode
transition-Kept rt name = ground arith

acknowledge-Agrees :
    (rt : RuntimeState) (o : Option RuntimeState)
    → Kept rt o
    → Agrees rt (acknowledge rt o).0 × ((acknowledge rt o).0.command_acks ≤ rt.command_acks + 1)
unfolding acknowledge
acknowledge-Agrees rt none k = (Agrees-refl rt, omega arith)
acknowledge-Agrees rt (some next) k = (omega arith, omega arith)

module _ (rt : RuntimeState) (source name : String) where
  apply_command-counted :
      let counted = count_command rt source name in
      let after = (apply_command rt source name).0 in
      Agrees counted after × (after.command_acks ≤ counted.command_acks + 1)
  unfolding apply_command
  apply_command-counted =
      let counted = count_command rt source name in
      acknowledge-Agrees counted (transition counted name) (transition-Kept counted name)

  -- ApplyCommand advances the control counter by the channel and the emergency counter by the name of
  -- the command, whether it accepts the command or not, the acknowledgements by at most one, and no
  -- other counter of events.
  pub apply_command-counters :
      let after = (apply_command rt source name).0 in
      (after.peer_connected_events ≡ rt.peer_connected_events)
      × (after.peer_disconnected_events ≡ rt.peer_disconnected_events)
      × (after.network_down_events ≡ rt.network_down_events)
      × (after.network_up_events ≡ rt.network_up_events)
      × (after.heartbeat_lost_events ≡ rt.heartbeat_lost_events)
      × (after.telemetry_messages_received ≡ rt.telemetry_messages_received)
      × (after.webrtc_errors ≡ rt.webrtc_errors)
      × (after.control_messages_received
          ≡ rt.control_messages_received + (if source == "control_channel" then 1 else 0))
      × (after.emergency_commands_received
          ≡ rt.emergency_commands_received + (if name == "EMERGENCY_STOP" then 1 else 0))
      × (after.command_acks ≤ rt.command_acks + 1)
  unfolding count_command
  apply_command-counters =
      let c = apply_command-counted in
      (
        c.0.peers_up,
        c.0.peers_down,
        c.0.downs,
        c.0.ups,
        c.0.lost,
        c.0.telemetry,
        c.0.errors,
        ground (arith, c.0.controls),
        ground (arith, c.0.emergencies),
        c.1,
      )
