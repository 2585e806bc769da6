-- ===== src/Sender.antt =====
-- loader/sender/sender.go: requests become frames on a channel, and frames become writes.
pub mod Batched
pub mod Instant
pub mod Send
