-- ===== src/Proto/Link.antt =====
-- A sender of crates/longboy/src/proto/sender.rs and the receiver of receiver.rs at the other end,
-- with one key between them.
pub mod Frames
pub mod Late
mod Window
pub mod Sends
pub mod Burst
pub mod Mirrored
pub mod Session
pub mod AnyOrder
pub mod Tally
pub mod ExactlyOnce
pub mod Stream
pub mod Unordered
