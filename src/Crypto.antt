-- ===== src/Crypto.antt =====
-- The hash functions: src/crypto.
pub mod Sha256
