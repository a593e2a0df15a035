-- ===== src/Wire.antt =====
-- include/crowdy/wire: the Replication API wire protocol.
pub mod Protocol
pub mod MessageType
pub mod Hmac
pub mod Spatial
pub mod Payload
pub mod Channel
pub mod Bundle
pub mod Control
mod Examples
