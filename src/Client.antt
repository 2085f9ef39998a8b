-- ===== src/Client.antt =====
-- The client's side: what it predicts of its own movement, and what it makes of the server's updates.
pub mod Pending
pub mod Predictor
pub mod Demux
pub mod Hazards
pub mod Poses
pub mod Snapshot
pub mod Receiver
