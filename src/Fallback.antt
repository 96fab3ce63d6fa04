-- ===== src/Fallback.antt =====
-- src/fallback: where jobs come from when the shared memory of the node is silent.
pub mod Health
pub mod State
pub mod Manager
pub mod StratumClient
