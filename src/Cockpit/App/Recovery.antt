-- ===== src/Cockpit/App/Recovery.antt =====
-- How the operator gets the vehicle to drive after the peer has come back, in
-- cockpit_client/cockpit_client_app.cc and cockpit_client/domain/runtime_state.cc.
use whl_air.Base.{
  String, ◌≡◌, refl, subst⁻¹, eq_iff, ◌∙◌, false, true, Bool, List, [], ◌∷◌, ◌++◌, arith,
}
use whl_air.Cockpit.Runtime.{
  RuntimeState, apply_command, transition, acknowledge, push_state, on_peer_connected,
  on_ws_connected, on_ws_disconnected,
}
use whl_air.Cockpit.Runtime.Counters.{emergency_stop_accepted}
use whl_air.Cockpit.App.{
  Section, ws_connected, ws_disconnected, peer_connected, peer_disconnected, network_down,
  network_up, heartbeat_lost, command, status_update, telemetry_tick, heartbeat_tick, step, run,
  All, publish_status_update, telemetry_round, heartbeat_round,
}

-- The rounds of the background loops, status updates, and web socket clients that come and go.
abbrev pub IsAside : Section → Type 0
IsAside status_update = Unit
IsAside telemetry_tick = Unit
IsAside heartbeat_tick = Unit
IsAside (ws_connected id) = Unit
IsAside (ws_disconnected id) = Unit
IsAside _ = ⊥

-- A session with a connected vehicle.
pub record IsIn (session mode : String) (emergency : Bool) (rt : RuntimeState) : Type 0 where
  pub in_session : rt.session_state ≡ session
  pub in_mode : rt.vehicle_mode ≡ mode
  pub with_emergency : rt.emergency ≡ emergency
  pub with_connection : rt.connected ≡ true

module _ (session mode : String) (emergency : Bool) where
  step-IsIn :
      (rt : RuntimeState) (s : Section)
      → IsAside s
      → IsIn session mode emergency rt
      → IsIn session mode emergency (step rt s)
  unfolding step publish_status_update telemetry_round heartbeat_round on_ws_connected
      on_ws_disconnected
  step-IsIn rt status_update b h = ground arith
  step-IsIn rt telemetry_tick b h = ground arith
  step-IsIn rt heartbeat_tick b h = ground arith
  step-IsIn rt (ws_connected id) b h = ground arith
  step-IsIn rt (ws_disconnected id) b h = ground arith
  step-IsIn rt peer_connected b h = elim b [ ]
  step-IsIn rt peer_disconnected b h = elim b [ ]
  step-IsIn rt network_down b h = elim b [ ]
  step-IsIn rt network_up b h = elim b [ ]
  step-IsIn rt heartbeat_lost b h = elim b [ ]
  step-IsIn rt (command source name) b h = elim b [ ]

  run-IsIn :
      (rt : RuntimeState) (l : List Section)
      → All IsAside l
      → IsIn session mode emergency rt
      → IsIn session mode emergency (run rt l)
  unfolding run
  run-IsIn rt [] b h = h
  run-IsIn rt (s ∷ rest) b h = run-IsIn (step rt s) rest b.1 (step-IsIn rt s b.0 h)

run-append : (rt : RuntimeState) (l more : List Section) → run rt (l ++ more) ≡ run (run rt l) more
unfolding run
run-append rt [] more = refl
run-append rt (s ∷ rest) more = run-append (step rt s) rest more

attached : (rt : RuntimeState) → (on_peer_connected rt).connected ≡ true
unfolding on_peer_connected push_state
attached rt = ground arith

module _ (rt : RuntimeState) (source : String) where
  connected-emergency_stop :
      rt.connected ≡ true → (apply_command rt source "EMERGENCY_STOP").0.connected ≡ true
  unfolding apply_command acknowledge transition push_state
  connected-emergency_stop c = ground arith

  emergency_stopped :
      rt.connected ≡ true
      → IsIn "SAFE_STOP" "SAFE_STOP" true (apply_command rt source "EMERGENCY_STOP").0
  emergency_stopped c =
      let (_, session, mode, emergency, _) = emergency_stop_accepted rt source in
      record {
        in_session = session;
        in_mode = mode;
        with_emergency = emergency;
        with_connection = connected-emergency_stop c;
      }

  recovered :
      IsIn "SAFE_STOP" "SAFE_STOP" true rt
      → IsIn "CONNECTED" "AUTO" false (apply_command rt source "RECOVER_AUTO").0
  unfolding apply_command acknowledge transition push_state
  recovered h = ground (arith, h.in_session, h.with_connection, eq_iff rt.session_state "SAFE_STOP")

  taken_over :
      IsIn "CONNECTED" "AUTO" false rt
      → IsIn "REMOTE_CONTROL" "REMOTE_CONTROL" false (apply_command rt source "TAKEOVER_REQUEST").0
  unfolding apply_command acknowledge transition push_state
  taken_over h = ground (
    arith,
    h.in_session,
    h.with_connection,
    h.with_emergency,
    eq_iff rt.session_state "CONNECTED",
  )

  driven :
      IsIn "REMOTE_CONTROL" "REMOTE_CONTROL" false rt
      → IsIn "REMOTE_CONTROL" "REMOTE_CONTROL" false (apply_command rt source "FORWARD").0
        × ((apply_command rt source "FORWARD").0.expected_speed_mps ≡ 6)
        × ((apply_command rt source "FORWARD").1 ≡ true)
  unfolding apply_command acknowledge transition
  driven h = ground (
    arith,
    h.in_session,
    h.in_mode,
    h.with_connection,
    h.with_emergency,
    eq_iff rt.session_state "REMOTE_CONTROL",
  )

-- From every state of the cockpit, an emergency that a lost connection has left behind among them, a
-- peer that connects and then EMERGENCY_STOP, RECOVER_AUTO, TAKEOVER_REQUEST and FORWARD of any
-- source have the vehicle drive under remote control, with any rounds of the background loops,
-- status updates and web socket clients that come and go before each command: FORWARD is accepted,
-- session and vehicle mode are REMOTE_CONTROL without an emergency, and the expected speed is 6.
pub reconnect_and_drive :
    (rt : RuntimeState) (source : String) (first second third : List Section)
    → All IsAside first
    → All IsAside second
    → All IsAside third
    → let before = run rt (
        peer_connected
        ∷ command source "EMERGENCY_STOP"
        ∷ (first
            ++ (command source "RECOVER_AUTO"
                ∷ (second ++ (command source "TAKEOVER_REQUEST" ∷ third))))) in
      let (after, accepted) = apply_command before source "FORWARD" in
      IsIn "REMOTE_CONTROL" "REMOTE_CONTROL" false after
      × (after.expected_speed_mps ≡ 6)
      × (accepted ≡ true)
unfolding run step
reconnect_and_drive rt source first second third b c d =
    let met = on_peer_connected rt in
    let stopped = (apply_command met source "EMERGENCY_STOP").0 in
    let waited = run stopped first in
    let free = (apply_command waited source "RECOVER_AUTO").0 in
    let idle = run free second in
    let taken = (apply_command idle source "TAKEOVER_REQUEST").0 in
    let ready = run-IsIn "REMOTE_CONTROL" "REMOTE_CONTROL" false taken third d (
      taken_over idle source (
        run-IsIn "CONNECTED" "AUTO" false free second c (
          recovered waited source (
            run-IsIn "SAFE_STOP" "SAFE_STOP" true stopped first b
              (emergency_stopped met source (attached rt)))))) in
    subst⁻¹
      (λ (r : RuntimeState).
        let (after, accepted) = apply_command r source "FORWARD" in
        IsIn "REMOTE_CONTROL" "REMOTE_CONTROL" false after
        × (after.expected_speed_mps ≡ 6)
        × (accepted ≡ true))
      (run-append stopped first
          (command source "RECOVER_AUTO" ∷ (second ++ (command source "TAKEOVER_REQUEST" ∷ third)))
        ∙ run-append free second (command source "TAKEOVER_REQUEST" ∷ third))
      (driven (run taken third) source ready)
