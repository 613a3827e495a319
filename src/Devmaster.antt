-- ===== src/Devmaster.antt =====
-- exts/devmaster/src/lib/framework: the queue of device jobs and its workers.
pub mod Queue
pub mod Order
pub mod Lost
