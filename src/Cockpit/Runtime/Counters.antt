-- ===== src/Cockpit/Runtime/Counters.antt =====
-- What a command changes where it is refused, and when it is.
use whl_air.Base.{String, ◌≡◌, ◌≢◌, refl, eq_iff, Option, none, some, true, false, arith}
use whl_air.Cockpit.Runtime.{
  RuntimeState, push_state, on_peer_connected, on_peer_disconnected, transition, acknowledge,
  apply_command,
}

acknowledge-false :
    (rt : RuntimeState) (source : String) (o : Option RuntimeState)
    → (acknowledge rt source o).1 ≡ false
    → (acknowledge rt source o).0 ≡ rt
unfolding acknowledge
acknowledge-false rt source none h = refl
acknowledge-false rt source (some next) h = cc

-- A command that ApplyCommand refuses leaves the whole state as it was.
apply_command_refused :
    (rt : RuntimeState) (source name : String)
    → (apply_command rt source name).1 ≡ false
    → (apply_command rt source name).0 ≡ rt
unfolding apply_command
apply_command_refused rt source name h = acknowledge-false rt source (transition rt name) h

-- While disconnected every command but EMERGENCY_STOP is refused.
apply_command_disconnected :
    (rt : RuntimeState) (source name : String)
    → rt.connected ≡ false
    → name ≢ "EMERGENCY_STOP"
    → apply_command rt source name ≡ (rt, false)
unfolding apply_command transition acknowledge
apply_command_disconnected rt source name off other = ground (arith, eq_iff name "EMERGENCY_STOP")

-- EMERGENCY_STOP is accepted in every state, connected or not, and leaves the session and the vehicle
-- in SAFE_STOP with the emergency flag up and no speed expected.
pub emergency_stop_accepted :
    (rt : RuntimeState) (source : String)
    → let (next, accepted) = apply_command rt source "EMERGENCY_STOP" in
      (accepted ≡ true)
      × (next.session_state ≡ "SAFE_STOP")
      × (next.vehicle_mode ≡ "SAFE_STOP")
      × (next.emergency ≡ true)
      × (next.expected_speed_mps ≡ 0)
unfolding apply_command transition acknowledge push_state
emergency_stop_accepted rt source = ground arith

-- The session state DISCONNECTED refuses every command but EMERGENCY_STOP, connected or not.
refused_in_disconnected :
    (rt : RuntimeState) (source name : String)
    → rt.session_state ≡ "DISCONNECTED"
    → name ≢ "EMERGENCY_STOP"
    → apply_command rt source name ≡ (rt, false)
unfolding apply_command transition acknowledge
refused_in_disconnected rt source name e other = ground (
  arith,
  eq_iff name "EMERGENCY_STOP",
  eq_iff rt.session_state "CONNECTED",
  eq_iff rt.session_state "REMOTE_CONTROL",
  eq_iff rt.session_state "SAFE_STOP",
  eq_iff "DISCONNECTED" "CONNECTED",
  eq_iff "DISCONNECTED" "REMOTE_CONTROL",
  eq_iff "DISCONNECTED" "SAFE_STOP",
)

-- After a peer loss and a reconnection in an emergency the cockpit is connected, its session state is
-- DISCONNECTED, its vehicle mode AUTO and the emergency still up, and it refuses every command but
-- EMERGENCY_STOP, RECOVER_AUTO among them.
pub reconnect_in_emergency :
    (rt : RuntimeState) (source name : String)
    → rt.emergency ≡ true
    → name ≢ "EMERGENCY_STOP"
    → let back = on_peer_connected (on_peer_disconnected rt) in
      (back.connected ≡ true)
      × (back.session_state ≡ "DISCONNECTED")
      × (back.vehicle_mode ≡ "AUTO")
      × (back.emergency ≡ true)
      × (apply_command back source name ≡ (back, false))
unfolding push_state on_peer_connected on_peer_disconnected
reconnect_in_emergency rt source name e other =
    let back = on_peer_connected (on_peer_disconnected rt) in
    let session : back.session_state ≡ "DISCONNECTED" = ground arith in
    (
      ground arith,
      session,
      ground arith,
      ground arith,
      refused_in_disconnected back source name session other,
    )

-- Commands do not touch the clients.
abbrev SameClients : RuntimeState → Option RuntimeState → Type 0
SameClients rt none = Unit
SameClients rt (some next) = next.ws_clients ≡ rt.ws_clients

transition-SameClients : (rt : RuntimeState) (name : String) → SameClients rt (transition rt name)
unfolding transition push_state
transition-SameClients rt name = ground arith

acknowledge-SameClients :
    (rt : RuntimeState) (source : String) (o : Option RuntimeState)
    → SameClients rt o
    → (acknowledge rt source o).0.ws_clients ≡ rt.ws_clients
unfolding acknowledge
acknowledge-SameClients rt source none k = refl
acknowledge-SameClients rt source (some next) k = k

pub ws_clients-apply_command :
    (rt : RuntimeState) (source name : String)
    → (apply_command rt source name).0.ws_clients ≡ rt.ws_clients
unfolding apply_command
ws_clients-apply_command rt source name =
    acknowledge-SameClients rt source (transition rt name) (transition-SameClients rt name)
