-- ===== src/Vehicle/Runtime/Safety.antt =====
-- The safety invariant of the vehicle's runtime state, and that every event handler keeps it.
use whl_air.Base.{String, ◌≡◌, ◌⊎◌, true, false, Option, none, some, eq_iff, arith}
use whl_air.Vehicle.Runtime.{
  RuntimeState, push_mode, on_peer_connected, on_peer_disconnected, on_network_down, on_network_up,
  on_heartbeat_lost, on_telemetry_message_received, on_webrtc_error, transition, apply_command,
  safe_stop, count_command, acknowledge,
}

abbrev pub IsMode : String → Type 0
IsMode mode = (mode ≡ "AUTO") ⊎ (mode ≡ "REMOTE_CONTROL") ⊎ (mode ≡ "SAFE_STOP")

-- The emergency flag is up exactly in SAFE_STOP, where the gear is neutral, and the vehicle is
-- driven only in REMOTE_CONTROL.
pub record IsSafe (rt : RuntimeState) : Type 0 where
  pub known : IsMode rt.mode
  pub latched : rt.emergency ≡ true → rt.mode ≡ "SAFE_STOP"
  pub stopped : rt.mode ≡ "SAFE_STOP" → (rt.emergency ≡ true) × (rt.gear ≡ 0)
  pub still : (rt.speed_mps ≡ 0) ⊎ ((rt.speed_mps ≡ 6) × (rt.mode ≡ "REMOTE_CONTROL"))
  pub neutral : rt.gear ≡ 0 ⊎ rt.gear ≡ 1

-- The outcome of a transition is safe, if there is one.
abbrev Good : Option RuntimeState → Type 0
Good none = Unit
Good (some next) = IsSafe next

acknowledge-IsSafe :
    (rt : RuntimeState) (o : Option RuntimeState) → IsSafe rt → Good o → IsSafe (acknowledge rt o).0
unfolding acknowledge
acknowledge-IsSafe rt none s g = s
acknowledge-IsSafe rt (some next) s g = record {
  known = g.known;
  latched = g.latched;
  stopped = g.stopped;
  still = g.still;
  neutral = g.neutral;
}

module _ (rt : RuntimeState) (s : IsSafe rt) where
  pub on_peer_connected-IsSafe : IsSafe (on_peer_connected rt)
  unfolding on_peer_connected push_mode
  on_peer_connected-IsSafe = ground (arith, eq_iff "AUTO" "SAFE_STOP")

  pub on_peer_disconnected-IsSafe : IsSafe (on_peer_disconnected rt)
  unfolding on_peer_disconnected push_mode
  on_peer_disconnected-IsSafe = ground (arith, eq_iff "AUTO" "SAFE_STOP")

  pub on_network_down-IsSafe : IsSafe (on_network_down rt)
  unfolding on_network_down push_mode
  on_network_down-IsSafe = ground arith

  pub on_network_up-IsSafe : IsSafe (on_network_up rt)
  unfolding on_network_up push_mode
  on_network_up-IsSafe = ground (arith, eq_iff "AUTO" "SAFE_STOP")

  pub on_heartbeat_lost-IsSafe : IsSafe (on_heartbeat_lost rt)
  unfolding on_heartbeat_lost push_mode
  on_heartbeat_lost-IsSafe = ground arith

  pub on_telemetry_message_received-IsSafe : IsSafe (on_telemetry_message_received rt)
  unfolding on_telemetry_message_received
  on_telemetry_message_received-IsSafe = ground arith

  pub on_webrtc_error-IsSafe : IsSafe (on_webrtc_error rt)
  unfolding on_webrtc_error push_mode
  on_webrtc_error-IsSafe = ground arith

  count_command-IsSafe :
      (source command_name : String) → IsSafe (count_command rt source command_name)
  unfolding count_command
  count_command-IsSafe source command_name = record {
    known = s.known;
    latched = s.latched;
    stopped = s.stopped;
    still = s.still;
    neutral = s.neutral;
  }

  -- What each accepted command makes of the state.
  takeover-IsSafe :
      rt.mode ≡ "AUTO"
      → IsSafe (push_mode (record rt { mode = "REMOTE_CONTROL"; gear = 1 }) "REMOTE_CONTROL")
  unfolding push_mode
  takeover-IsSafe e = ground (
    arith,
    eq_iff "AUTO" "SAFE_STOP",
    eq_iff "AUTO" "REMOTE_CONTROL",
    eq_iff "REMOTE_CONTROL" "SAFE_STOP",
  )

  forward-IsSafe : rt.mode ≡ "REMOTE_CONTROL" → IsSafe (record rt { speed_mps = 6 })
  forward-IsSafe e = ground arith

  stop-IsSafe : rt.mode ≡ "REMOTE_CONTROL" → IsSafe (record rt { speed_mps = 0 })
  stop-IsSafe e = ground arith

  safe_stop-IsSafe : IsSafe (safe_stop rt)
  unfolding safe_stop push_mode
  safe_stop-IsSafe = ground arith

  recover-IsSafe :
      IsSafe
        (push_mode (record rt { mode = "AUTO"; emergency = false; speed_mps = 0; gear = 0 }) "AUTO")
  unfolding push_mode
  recover-IsSafe = ground (arith, eq_iff "AUTO" "SAFE_STOP")

  transition-Good : (command_name : String) → Good (transition rt command_name)
  unfolding transition
  transition-Good command_name = ground (
    arith,
    takeover-IsSafe,
    forward-IsSafe,
    stop-IsSafe,
    safe_stop-IsSafe,
    recover-IsSafe,
    eq_iff rt.mode "AUTO",
    eq_iff rt.mode "REMOTE_CONTROL",
  )

module _ (rt : RuntimeState) (s : IsSafe rt) where
  pub apply_command-IsSafe :
      (source command_name : String) → IsSafe (apply_command rt source command_name).0
  unfolding apply_command
  apply_command-IsSafe source command_name =
      let counted = count_command rt source command_name in
      acknowledge-IsSafe counted (transition counted command_name)
        (count_command-IsSafe rt s source command_name)
        (transition-Good counted (count_command-IsSafe rt s source command_name) command_name)
