-- ===== src/Unit.antt =====
-- core/lib/unit and core/bin/unit: what a unit's state says, how units depend on one another.
pub mod State
pub mod Relation
pub mod Atom
pub mod Dependency
pub mod RateLimit
pub mod Entry
pub mod Loading
pub mod Children
