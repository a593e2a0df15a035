-- ===== src/Core.antt =====
-- include/crowdy/core: result codes, byte helpers, the crypto provider, the hand-over ring.
pub mod Result
pub mod Le
pub mod Crypto
pub mod Uuid
pub mod Base64
pub mod Spsc
mod Examples
