-- ===== src/Alarm.antt =====
-- The alarm engine, backend/internal/engine/alarm_engine.go.
pub mod Rule
pub mod Sort
pub mod Engine
pub mod Step
pub mod Batch
pub mod History
