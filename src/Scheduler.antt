-- ===== src/Scheduler.antt =====
-- src/scheduler.rs: the schedule engine and the schedule table.
pub mod WallClock
pub mod Engine
pub mod Table
pub mod Gap
pub mod Aligned
pub mod Calendar
mod Tests
