-- ===== src/Vehicle/Sensors/Chassis.antt =====
-- vehicle_client/sensors/chassis.cc: CanBusChassisSource, the thread and its life. The loop that the
-- thread runs is in Chassis.Loop.
pub mod Arithmetic
pub mod Loop
pub mod Bounds
pub mod Published
use whl_air.Base.{Bool, true, Option}
use whl_air.Vehicle.Sensors.{Worker, Handler}
use whl_air.Vehicle.Sensors

-- The opening of the bus is left out by the source.
abbrev pub init : Worker → Worker × Bool
init w = (w, true)

unfoldable pub start_updates : Worker → Option Handler → Option (Worker × Bool)
unfolding Sensors.start
start_updates w handler = Sensors.start w handler

unfoldable pub stop_updates : Worker → Worker
unfolding Sensors.stop
stop_updates w = Sensors.stop w

unfoldable pub destroy : Worker → Option Worker
unfolding Sensors.destroy
destroy w = Sensors.destroy w
