-- ===== src/Media.antt =====
-- include/crowdy/media: video fragments and voice packets inside realtime payloads.
pub mod Video
pub mod Voice
mod Examples
