-- ===== src/Event.antt =====
-- libs/event: the timers of the event loop.
pub mod Clock
pub mod Timer
