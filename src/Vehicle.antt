-- ===== src/Vehicle.antt =====
-- The vehicle client (vehicle_client/).
pub mod Runtime
pub mod App
pub mod Config
pub mod Main
pub mod Passes
pub mod Sensors
