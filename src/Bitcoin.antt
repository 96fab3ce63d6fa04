-- ===== src/Bitcoin.antt =====
-- The Bitcoin module of the server: src/bitcoin.
pub mod Target
pub mod Block
pub mod Coinbase
