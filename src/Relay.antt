-- ===== src/Relay.antt =====
-- src/relay: blocks that arrive in chunks of a datagram each.
pub mod FecDecoder
pub mod FibreProtocol
pub mod BlockReconstructor
