-- ===== src/Job.antt =====
-- core/bin/job: the job engine. `Kind` and `Entry` are the jobs themselves, `Engine` the cells and
-- databases that jobs share, `Junit` the jobs of one unit, `Stat` and `Alloc` the counters and the
-- numbers of jobs.
pub mod Kind
pub mod Entry
pub mod Engine
pub mod Junit
pub mod Table
pub mod Transaction
pub mod Notify
pub mod Manager
pub mod Stat
pub mod Alloc
