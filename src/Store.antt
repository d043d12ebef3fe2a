-- ===== src/Store.antt =====
-- src/state.rs: the runtime state in SQLite. A table is the list of its rows, and a statement does to
-- the list what its SQL says; a violated constraint is an error. Failures of the database file itself
-- are not modelled.
pub mod Model
pub mod Runs
pub mod Jobs
pub mod Liveness
pub mod Keys
pub mod Rows
pub mod Recovery
pub mod Outcomes
mod Tests
