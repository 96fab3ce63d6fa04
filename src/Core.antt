-- ===== src/Core.antt =====
-- The universal core: src/core.
pub mod Uint256
pub mod Target
pub mod BlockHeader
pub mod Merkle
pub mod AuxPow
pub mod Validation
pub mod Headers
pub mod MtpCalculator
pub mod Stream
