-- ===== src/Channel.antt =====
-- The channels of src/channel.
pub mod Gaps
pub mod Mpsc
pub mod Oneshot
pub mod Watch
pub mod Broadcast
