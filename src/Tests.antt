-- ===== src/Tests.antt =====
-- Concrete data, and the theorems of the development at it.
mod Data
mod Core
mod Chain
mod Bitcoin
mod Mining
mod Fallback
mod Relay
mod Network
