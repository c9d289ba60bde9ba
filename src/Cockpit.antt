-- ===== src/Cockpit.antt =====
-- The cockpit client (cockpit_client/).
pub mod Clients
pub mod Runtime
pub mod App
pub mod Config
pub mod Commands
pub mod Drivers
pub mod Main
