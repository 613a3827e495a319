-- ===== src/Job/Table.antt =====
-- core/bin/job/table.rs: the table of the jobs of all units (`JobUnitTable`). `Data` is the table and
-- its queue of ready units, `Entries` the operations on the jobs of a unit.
pub mod Data
pub mod Entries
pub mod Jobs
pub mod Commit
pub mod Queue
pub mod Resume
