-- ===== src/Examples.antt =====
-- Concrete runs of the program's parts, at which the theorems with hypotheses are applied.
pub mod Alarms
pub mod Polls
pub mod Fans
pub mod Memory
pub mod Queues
pub mod Replays
pub mod Logins
pub mod Thresholds
pub mod Chunks
pub mod Ingests
pub mod Pushes
pub mod Schedules
pub mod Events
pub mod Absences
pub mod Meshes
pub mod Commands
