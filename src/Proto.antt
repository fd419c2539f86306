-- ===== src/Proto.antt =====
-- crates/longboy/src/proto: the datagram protocol.
pub mod Constants
pub mod Cipher
pub mod Sender
pub mod Receiver
pub mod Link
