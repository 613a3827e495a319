-- ===== src/Reli.antt =====
-- core/lib/rel: the reliability engine, which keeps what the manager needs to go on after it is
-- executed again.
pub mod Db
pub mod Last
pub mod Pending
pub mod Station
pub mod Recover
