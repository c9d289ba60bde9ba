-- ===== src/Examples/Driving.antt =====
-- Concrete runs of the vehicle client.
use whl_air.Base.{
  ◌≢◌, none, String, ◌≡◌, ◌≤◌, some, refl, true, false, List, [], ◌∷◌, ◌++◌, arith, eq_iff,
}
use whl_air.Vehicle.Runtime.{initial, on_network_down, push_mode, apply_command}
use whl_air.Vehicle.Runtime.Safety.{IsSafe}
use whl_air.Vehicle.Runtime.Trace.{IsTraced}
use whl_air.StringMap
use whl_air.Vehicle.Config.{RuntimeConfig, default, load_config, vehicle_config_in_range}
use whl_air.Vehicle.App.{
  Section, peer_connected, network_down, network_up, command, camera_tick, run, started, IsCommand,
  All,
}
use whl_air.Vehicle.App.History.{
  run-started-IsSafe, run-started-IsTraced, IsHeld, run-IsHeld, IsParked, run-IsParked,
}
use whl_air.Vehicle.App.Recovery.{IsIn, four_commands_drive}
use whl_air.Vehicle.Sensors.{idle-IsOrderly}
use whl_air.Vehicle.Sensors.Camera.{created}
use whl_air.Vehicle.Sensors.Faults as Camera
use whl_air.Vehicle.Sensors.Faults.{inits, starts, stops, begins, IsAsRated, camera_goes_on}
use whl_air.Vehicle.Sensors.Chassis as Sensors
use whl_air.Vehicle.Sensors.Chassis.Arithmetic.{Twentieths, twentieths, Twentieths-IsIeee}
use whl_air.Vehicle.Sensors.Chassis.Loop as Chassis
use whl_air.Vehicle.Sensors.Chassis.Bounds.{AllInRange, handlers}
use whl_air.Vehicle.Sensors.Chassis.Published.{receivers, created-publishes}
use whl_air.Vehicle.App.Tally.{IsTallied, length, HasRoom, run-HasRoom}

-- A drive that loses the network.
abbrev drive : List Section
drive =
    peer_connected
    ∷ command "control_channel" "TAKEOVER_REQUEST"
    ∷ command "control_channel" "FORWARD"
    ∷ network_down
    ∷ camera_tick
    ∷ []

-- Attempts to go on after it.
abbrev attempts : List Section
attempts =
    network_up
    ∷ command "control_channel" "TAKEOVER_REQUEST"
    ∷ command "control_channel" "FORWARD"
    ∷ []

-- Commands that do not ask for control.
abbrev forward : List Section
forward = peer_connected ∷ command "control_channel" "FORWARD" ∷ []

run-started-IsSafe_example : IsSafe (run started drive)
run-started-IsSafe_example = run-started-IsSafe drive

run-started-IsTraced_example : IsTraced (run started drive)
run-started-IsTraced_example = run-started-IsTraced drive

held : IsHeld (on_network_down initial)
unfolding on_network_down push_mode
held = (refl, refl, refl, refl)

attempts_recover_nothing : All (λ s. ¬ IsCommand "RECOVER_AUTO" s) attempts
attempts_recover_nothing = (
  λ e. e,
  (
    ground (arith, eq_iff "TAKEOVER_REQUEST" "RECOVER_AUTO"),
    (ground (arith, eq_iff "FORWARD" "RECOVER_AUTO"), tt),
  ),
)

run-IsHeld_example : IsHeld (run (on_network_down initial) attempts)
run-IsHeld_example = run-IsHeld (on_network_down initial) attempts held attempts_recover_nothing

parked : IsParked initial
parked = (ground (arith, eq_iff "AUTO" "REMOTE_CONTROL"), refl)

forward_takes_nothing : All (λ s. ¬ IsCommand "TAKEOVER_REQUEST" s) forward
forward_takes_nothing = (λ e. e, (ground (arith, eq_iff "FORWARD" "TAKEOVER_REQUEST"), tt))

run-IsParked_example : IsParked (run initial forward)
run-IsParked_example = run-IsParked initial forward parked forward_takes_nothing

initial-HasRoom : HasRoom (length drive) initial
unfolding push_mode
initial-HasRoom = record {
  peers_up = omega arith;
  peers_down = omega arith;
  downs = omega arith;
  ups = omega arith;
  lost = omega arith;
  telemetry = omega arith;
  errors = omega arith;
  controls = omega arith;
  emergencies = omega arith;
  acks = omega arith;
}

run-HasRoom_example : HasRoom 0 (run initial drive) × IsTallied initial drive (run initial drive)
run-HasRoom_example = run-HasRoom initial drive initial-HasRoom

-- A configuration file, and what it is read as.
abbrev config_lines : List String
config_lines =
    "# vehicle" ∷ " client_id = car-7 " ∷ "camera_fps=0" ∷ "" ∷ "telemetry_interval_ms=50" ∷ []

abbrev car_config : RuntimeConfig
car_config = record default { client_id = "car-7"; camera_fps = 1; telemetry_interval_ms = 50 }

config_lines_load : load_config (some config_lines) default ≡ some car_config
unfolding load_config StringMap.find StringMap.insert
config_lines_load = refl

vehicle_config_in_range_example :
    (1 ≤ car_config.camera_fps) × (20 ≤ car_config.telemetry_interval_ms)
vehicle_config_in_range_example =
    vehicle_config_in_range (some config_lines) car_config config_lines_load

four_commands_drive_example :
    let before = run (run started drive) (
      command "web" "EMERGENCY_STOP"
      ∷ ((camera_tick ∷ [])
          ++ (command "web" "RECOVER_AUTO"
              ∷ ([] ++ (command "web" "TAKEOVER_REQUEST" ∷ (camera_tick ∷ [])))))) in
    let (after, accepted) = apply_command before "web" "FORWARD" in
    IsIn "REMOTE_CONTROL" false after × (after.speed_mps ≡ 6) × (accepted ≡ true)
four_commands_drive_example =
    four_commands_drive (run started drive) "web" (camera_tick ∷ []) [] (camera_tick ∷ []) (tt, tt)
      tt (tt, tt)

-- A session of the camera that is started once more after a stop.
abbrev filming : List Camera.Event
filming = stops ∷ starts (some 9) ∷ starts none ∷ begins ∷ []

camera_goes_on_example :
    IsAsRated 25
      (Camera.run created (inits "/dev/video0" 640 480 25 ∷ starts (some 7) ∷ begins ∷ filming))
camera_goes_on_example = camera_goes_on created "/dev/video0" 640 480 25 7 filming idle-IsOrderly tt

-- Two starts, the second of them refused, and a round after the stop.
abbrev updating : List Chassis.Event
updating =
    Chassis.starts (some 4)
    ∷ Chassis.rounds
    ∷ Chassis.starts (some 5)
    ∷ Chassis.rounds
    ∷ Chassis.stops
    ∷ Chassis.rounds
    ∷ []

created-publishes_example :
    (after : Chassis.Source Twentieths) × (updates : List (Chassis.Update Twentieths))
    × (Chassis.run Chassis.created updating ≡ some (after, updates))
    × AllInRange updates
    × (handlers updates ≡ receivers none updating)
    × (Sensors.destroy after.worker ≢ none)
created-publishes_example = created-publishes updating Twentieths-IsIeee
