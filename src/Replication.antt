-- ===== src/Replication.antt =====
-- include/crowdy/replication and src/replication: the connection to a replication server.
pub mod Sender
pub mod Receiver
pub mod Lifecycle
mod Examples
