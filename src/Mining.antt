-- ===== src/Mining.antt =====
-- src/mining: jobs, shares and their distribution to connections.
pub mod Extranonce
pub mod Job
pub mod JobManager
pub mod ShareValidator
pub mod TemplateCache
pub mod VersionRolling
