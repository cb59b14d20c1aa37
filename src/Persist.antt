-- ===== src/Persist.antt =====
-- Snapshots and the append-only file: internal/persist.
pub mod Mode
pub mod Log
pub mod Format
pub mod Engine
pub mod Load
pub mod Absorb
pub mod Window
pub mod Complete
pub mod Seen
pub mod Effects
mod Tests
