-- ===== src/Cockpit/Runtime/Safety.antt =====
-- The safety invariant of the cockpit's runtime state, and that every event handler keeps it.
use whl_air.Base.{String, ◌≡◌, ◌≢◌, ◌⊎◌, Option, none, some, true, false, eq_iff, arith}
use whl_air.Base.Int.{ℤ}
use whl_air.Cockpit.Runtime.{
  RuntimeState, push_state, on_ws_connected, on_ws_disconnected, on_peer_connected,
  on_peer_disconnected, on_network_down, on_network_up, on_heartbeat_lost, safe_stop, transition,
  acknowledge, apply_command,
}

-- The session state says what the flags are, and a speed is expected in REMOTE_CONTROL only.
pub record IsConsistent (rt : RuntimeState) : Type 0 where
  pub driving :
      rt.session_state ≡ "REMOTE_CONTROL"
      → (rt.connected ≡ true) × (rt.emergency ≡ false) × (rt.vehicle_mode ≡ "REMOTE_CONTROL")
  pub idle :
      rt.session_state ≡ "CONNECTED"
      → (rt.connected ≡ true) × (rt.emergency ≡ false) × (rt.vehicle_mode ≡ "AUTO")
  pub halted :
      rt.session_state ≡ "SAFE_STOP" → (rt.emergency ≡ true) × (rt.vehicle_mode ≡ "SAFE_STOP")
  pub ready :
      rt.connected ≡ true
      → rt.emergency ≡ false
      → (rt.session_state ≡ "CONNECTED") ⊎ (rt.session_state ≡ "REMOTE_CONTROL")
  pub still :
      (rt.expected_speed_mps ≡ 0)
      ⊎ ((rt.expected_speed_mps ≡ 6) × (rt.session_state ≡ "REMOTE_CONTROL"))
  pub acknowledged : rt.commands_sent ≡ rt.command_acks

-- The names of the session states are different.
distinct :
    (◌≢◌ {A = String} "CONNECTED" "REMOTE_CONTROL")
    × (◌≢◌ {A = String} "CONNECTED" "SAFE_STOP")
    × (◌≢◌ {A = String} "REMOTE_CONTROL" "SAFE_STOP")
    × (◌≢◌ {A = String} "DISCONNECTED" "CONNECTED")
    × (◌≢◌ {A = String} "DISCONNECTED" "REMOTE_CONTROL")
    × (◌≢◌ {A = String} "DISCONNECTED" "SAFE_STOP")
    × (◌≢◌ {A = String} "RECONNECTING" "CONNECTED")
    × (◌≢◌ {A = String} "RECONNECTING" "REMOTE_CONTROL")
    × (◌≢◌ {A = String} "RECONNECTING" "SAFE_STOP")
distinct = (
  ground (arith, eq_iff "CONNECTED" "REMOTE_CONTROL"),
  ground (arith, eq_iff "CONNECTED" "SAFE_STOP"),
  ground (arith, eq_iff "REMOTE_CONTROL" "SAFE_STOP"),
  ground (arith, eq_iff "DISCONNECTED" "CONNECTED"),
  ground (arith, eq_iff "DISCONNECTED" "REMOTE_CONTROL"),
  ground (arith, eq_iff "DISCONNECTED" "SAFE_STOP"),
  ground (arith, eq_iff "RECONNECTING" "CONNECTED"),
  ground (arith, eq_iff "RECONNECTING" "REMOTE_CONTROL"),
  ground (arith, eq_iff "RECONNECTING" "SAFE_STOP"),
)

abbrev Good : Option RuntimeState → Type 0
Good none = Unit
Good (some next) = IsConsistent next

acknowledge-IsConsistent :
    (rt : RuntimeState) (source : String) (o : Option RuntimeState)
    → IsConsistent rt
    → Good o
    → IsConsistent (acknowledge rt source o).0
unfolding acknowledge
acknowledge-IsConsistent rt source none s g = s
acknowledge-IsConsistent rt source (some next) s g = ground arith

module _ (rt : RuntimeState) (s : IsConsistent rt) where
  pub on_ws_connected-IsConsistent : (id : ℤ) → IsConsistent (on_ws_connected rt id)
  unfolding on_ws_connected
  on_ws_connected-IsConsistent id = ground arith

  pub on_ws_disconnected-IsConsistent : (id : ℤ) → IsConsistent (on_ws_disconnected rt id)
  unfolding on_ws_disconnected
  on_ws_disconnected-IsConsistent id = ground arith

  pub on_peer_connected-IsConsistent : IsConsistent (on_peer_connected rt)
  unfolding on_peer_connected push_state
  on_peer_connected-IsConsistent = ground (arith, distinct)

  pub on_peer_disconnected-IsConsistent : IsConsistent (on_peer_disconnected rt)
  unfolding on_peer_disconnected push_state
  on_peer_disconnected-IsConsistent = ground (arith, distinct)

  pub on_network_down-IsConsistent : IsConsistent (on_network_down rt)
  unfolding on_network_down push_state
  on_network_down-IsConsistent = ground (arith, distinct)

  pub on_network_up-IsConsistent : IsConsistent (on_network_up rt)
  unfolding on_network_up push_state
  on_network_up-IsConsistent = ground (arith, distinct)

  pub on_heartbeat_lost-IsConsistent : IsConsistent (on_heartbeat_lost rt)
  unfolding on_heartbeat_lost push_state
  on_heartbeat_lost-IsConsistent = ground (arith, distinct)

  takeover :
      rt.session_state ≡ "CONNECTED"
      → IsConsistent (
          push_state
            (record rt { session_state = "REMOTE_CONTROL"; vehicle_mode = "REMOTE_CONTROL" })
            "REMOTE_CONTROL")
  unfolding push_state
  takeover e = ground (arith, distinct)

  forward :
      rt.session_state ≡ "REMOTE_CONTROL" → IsConsistent (record rt { expected_speed_mps = 6 })
  forward e = ground arith

  stop : IsConsistent (record rt { expected_speed_mps = 0 })
  stop = ground arith

  halt : IsConsistent (safe_stop rt)
  unfolding safe_stop push_state
  halt = ground (arith, distinct)

  recover :
      rt.connected ≡ true
      → IsConsistent (
          push_state
            (record rt {
              session_state = "CONNECTED";
              vehicle_mode = "AUTO";
              emergency = false;
              expected_speed_mps = 0;
            })
            "CONNECTED")
  unfolding push_state
  recover e = ground (arith, distinct)

  transition-IsConsistent : (name : String) → Good (transition rt name)
  unfolding transition
  transition-IsConsistent name = ground (
    arith,
    takeover,
    forward,
    stop,
    halt,
    recover,
    eq_iff rt.session_state "CONNECTED",
    eq_iff rt.session_state "REMOTE_CONTROL",
  )

  pub apply_command-IsConsistent :
      (source command_name : String) → IsConsistent (apply_command rt source command_name).0
  unfolding apply_command
  apply_command-IsConsistent source command_name =
      acknowledge-IsConsistent rt source (transition rt command_name) s
        (transition-IsConsistent command_name)
