-- ===== src/Build.antt =====
-- The circuit build, zkp/circuits/scripts/gen.js.
pub mod Settings
mod Tests
pub mod Ptau
pub mod Circuit
pub mod Schedule
