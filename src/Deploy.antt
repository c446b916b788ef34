-- ===== src/Deploy.antt =====
-- The scripts that deploy a token, solidity/scripts.
pub mod Chain
pub mod Given
pub mod Linking
pub mod Modules
pub mod Scripts
pub mod Tokens
mod Tests
