-- ===== src/Examples.antt =====
-- Runs of the development at concrete inputs, for the theorems that have hypotheses or variables.
pub mod Driving
pub mod Cabin
pub mod Calls
pub mod Sockets
pub mod Wire
pub mod Descriptions
pub mod SelfTests
