-- ===== src/World.antt =====
-- The game world: statuses, positions, players, NPCs, the ether and the field that holds them.
pub mod Float
pub mod Status
pub mod Entities
pub mod Ether
pub mod Movement
pub mod Input
pub mod Field
pub mod InputSequence
pub mod InputQueue
pub mod MovementText
pub mod ActionQueue
pub mod IntentQueue
pub mod UpdateText
pub mod Updates
pub mod Snapshot
pub mod Applier
