-- ===== src/Manager.antt =====
-- core/bin/unit/manager.rs: the manager of units, which joins the units, their loading and dependencies,
-- and the job manager.
pub mod Requests
pub mod States
pub mod Refused
pub mod Station
pub mod Rerun
