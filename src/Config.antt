-- ===== src/Config.antt =====
-- src/config.rs: the raw and the effective configuration, the `every:` and duration shorthands, and
-- normalization.
pub mod Model
pub mod Parse
pub mod Normalize
pub mod Shape
pub mod Merge
pub mod Canonical
mod Tests
