-- ===== src/Vehicle/App/Recovery.antt =====
-- How the operator gets the vehicle to drive again, in vehicle_client/vehicle_client_app.cc.
use whl_air.Base.{
  String, ◌≡◌, refl, subst⁻¹, eq_iff, ◌∙◌, false, true, Bool, List, [], ◌∷◌, ◌++◌, arith,
}
use whl_air.Vehicle.Runtime.{
  RuntimeState, apply_command, transition, acknowledge, count_command, safe_stop, push_mode,
}
use whl_air.Vehicle.App.{
  Section, peer_connected, peer_disconnected, network_down, network_up, heartbeat_lost,
  telemetry_received, webrtc_error, command, status_update, camera_tick, telemetry_tick,
  heartbeat_tick, step, run, All, publish_status_update, camera_round, telemetry_round,
  heartbeat_round,
}

-- The rounds of the background loops, and status updates.
abbrev pub IsBackground : Section → Type 0
IsBackground status_update = Unit
IsBackground camera_tick = Unit
IsBackground telemetry_tick = Unit
IsBackground heartbeat_tick = Unit
IsBackground _ = ⊥

pub record IsIn (mode : String) (emergency : Bool) (rt : RuntimeState) : Type 0 where
  pub in_mode : rt.mode ≡ mode
  pub with_emergency : rt.emergency ≡ emergency

step-IsIn :
    (mode : String) (emergency : Bool) (rt : RuntimeState) (s : Section)
    → IsBackground s
    → IsIn mode emergency rt
    → IsIn mode emergency (step rt s)
unfolding step publish_status_update camera_round telemetry_round heartbeat_round
step-IsIn mode emergency rt status_update b h = ground arith
step-IsIn mode emergency rt camera_tick b h = ground arith
step-IsIn mode emergency rt telemetry_tick b h = ground arith
step-IsIn mode emergency rt heartbeat_tick b h = ground arith
step-IsIn mode emergency rt peer_connected b h = elim b [ ]
step-IsIn mode emergency rt peer_disconnected b h = elim b [ ]
step-IsIn mode emergency rt network_down b h = elim b [ ]
step-IsIn mode emergency rt network_up b h = elim b [ ]
step-IsIn mode emergency rt heartbeat_lost b h = elim b [ ]
step-IsIn mode emergency rt telemetry_received b h = elim b [ ]
step-IsIn mode emergency rt webrtc_error b h = elim b [ ]
step-IsIn mode emergency rt (command source name) b h = elim b [ ]

run-IsIn :
    (mode : String) (emergency : Bool) (rt : RuntimeState) (l : List Section)
    → All IsBackground l
    → IsIn mode emergency rt
    → IsIn mode emergency (run rt l)
unfolding run
run-IsIn mode emergency rt [] b h = h
run-IsIn mode emergency rt (s ∷ rest) b h =
    run-IsIn mode emergency (step rt s) rest b.1 (step-IsIn mode emergency rt s b.0 h)

run-append : (rt : RuntimeState) (l more : List Section) → run rt (l ++ more) ≡ run (run rt l) more
unfolding run
run-append rt [] more = refl
run-append rt (s ∷ rest) more = run-append (step rt s) rest more

module _ (rt : RuntimeState) (source : String) where
  emergency_stopped : IsIn "SAFE_STOP" true (apply_command rt source "EMERGENCY_STOP").0
  unfolding apply_command acknowledge count_command transition safe_stop push_mode
  emergency_stopped = ground arith

  recovered :
      IsIn "SAFE_STOP" true rt → IsIn "AUTO" false (apply_command rt source "RECOVER_AUTO").0
  unfolding apply_command acknowledge count_command transition push_mode
  recovered h = ground (arith, h.in_mode, eq_iff rt.mode "SAFE_STOP")

  taken_over :
      IsIn "AUTO" false rt
      → IsIn "REMOTE_CONTROL" false (apply_command rt source "TAKEOVER_REQUEST").0
  unfolding apply_command acknowledge count_command transition push_mode
  taken_over h = ground (arith, h.in_mode, h.with_emergency, eq_iff rt.mode "AUTO")

  driven :
      IsIn "REMOTE_CONTROL" false rt
      → IsIn "REMOTE_CONTROL" false (apply_command rt source "FORWARD").0
        × ((apply_command rt source "FORWARD").0.speed_mps ≡ 6)
        × ((apply_command rt source "FORWARD").1 ≡ true)
  unfolding apply_command acknowledge count_command transition
  driven h = ground (arith, h.in_mode, h.with_emergency, eq_iff rt.mode "REMOTE_CONTROL")

-- From every state of the vehicle, whatever faults and commands have led to it, EMERGENCY_STOP,
-- RECOVER_AUTO, TAKEOVER_REQUEST and FORWARD of any source, with any rounds of the background loops
-- and status updates in between, have it drive under remote control: FORWARD is accepted, the mode is
-- REMOTE_CONTROL without an emergency, and the speed is 6.
pub four_commands_drive :
    (rt : RuntimeState) (source : String) (first second third : List Section)
    → All IsBackground first
    → All IsBackground second
    → All IsBackground third
    → let before = run rt (
        command source "EMERGENCY_STOP"
        ∷ (first
            ++ (command source "RECOVER_AUTO"
                ∷ (second ++ (command source "TAKEOVER_REQUEST" ∷ third))))) in
      let (after, accepted) = apply_command before source "FORWARD" in
      IsIn "REMOTE_CONTROL" false after × (after.speed_mps ≡ 6) × (accepted ≡ true)
unfolding run step
four_commands_drive rt source first second third b c d =
    let stopped = (apply_command rt source "EMERGENCY_STOP").0 in
    let waited = run stopped first in
    let free = (apply_command waited source "RECOVER_AUTO").0 in
    let idle = run free second in
    let taken = (apply_command idle source "TAKEOVER_REQUEST").0 in
    let ready = run-IsIn "REMOTE_CONTROL" false taken third d (
      taken_over idle source (
        run-IsIn "AUTO" false free second c (
          recovered waited source
            (run-IsIn "SAFE_STOP" true stopped first b (emergency_stopped rt source))))) in
    subst⁻¹
      (λ (r : RuntimeState).
        let (after, accepted) = apply_command r source "FORWARD" in
        IsIn "REMOTE_CONTROL" false after × (after.speed_mps ≡ 6) × (accepted ≡ true))
      (run-append stopped first
          (command source "RECOVER_AUTO" ∷ (second ++ (command source "TAKEOVER_REQUEST" ∷ third)))
        ∙ run-append free second (command source "TAKEOVER_REQUEST" ∷ third))
      (driven (run taken third) source ready)
