-- ===== src/Net.antt =====
-- The wire protocol between client and server (namespace `network`): commands and world updates,
-- their frames, and the reassembly of frames from a byte stream.
pub mod Command
pub mod Bytes
pub mod Plain
pub mod Frame
pub mod Reassembly
pub mod Update
pub mod Sequence
pub mod RateLimit
pub mod Outbound
pub mod Login
pub mod Disconnect
