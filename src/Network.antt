-- ===== src/Network.antt =====
-- src/network: the server that devices connect to.
pub mod Protocol
