-- ===== src/Session.antt =====
-- include/crowdy/session and src/session: the stores of a world session.
pub mod Keys
pub mod Actors
pub mod Errors
pub mod Events
pub mod Inbox
pub mod Presence
pub mod Chunk
pub mod Outcome
mod Examples
pub mod ChunkStore
