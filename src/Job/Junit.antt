-- ===== src/Job/Junit.antt =====
-- core/bin/job/junit.rs: the jobs of one unit. `Data` and `Steps` are `JobUnitData` without the
-- jobs' cells, `Effects` the operations as the table calls them.
pub mod Data
pub mod Steps
pub mod Effects
pub mod Conflict
pub mod Ordering
pub mod Reshuffle
pub mod Invariant
pub mod Progress
pub mod Trigger
pub mod LeftBehind
pub mod Runs
