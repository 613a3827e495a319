-- ===== src/Unit/Dependency.antt =====
-- core/bin/unit/datastore/deps.rs: the table of dependencies. A unit is named by its id, a number.
pub mod Table
pub mod Symmetry
pub mod Removal
