-- ===== src/Channels.antt =====
-- The sending of messages to the chat platforms: pkg/channels.
pub mod Split
pub mod Retry
