-- ===== src/Job/Entry/Order.antt =====
-- The tables of core/bin/job/entry.rs: the order of two jobs, and the basic kind of a compound one.
use sysmaster.Base.{Bool, true, not, ◌≡◌, arith, ◌↔◌, ◌||◌}
use sysmaster.Unit.Relation.{after, before, atom_eq}
use sysmaster.Job.Kind.{JobKind, start, nop, kind_eq, job_is_basic_op}
use sysmaster.Job.Entry.{free, negate, job_order_compare, job_merge_unit}

-- The two units of an ordering ask the same question from both ends and get opposite answers, so
-- they never wait for one another; one of them waits exactly when neither job is a `nop`.
pub job_order_compare_opposite :
    (a b : JobKind)
    → (job_order_compare b a after ≡ negate (job_order_compare a b before))
      × ((job_order_compare a b before ≡ free) ↔ ((kind_eq a nop || kind_eq b nop) ≡ true))
unfolding job_order_compare negate atom_eq
job_order_compare_opposite a b = ground arith

-- A compound kind becomes a basic one in every state of the unit, a basic kind stays, and the unit
-- is not asked to reload or restart unless it is active.
pub job_merge_unit_basic :
    (k : JobKind) (up : Bool)
    → (job_is_basic_op (job_merge_unit k up) ≡ true)
      × ((not (job_is_basic_op k) || kind_eq (job_merge_unit k up) k) ≡ true)
      × ((job_is_basic_op k
            || (up || (kind_eq (job_merge_unit k up) start || kind_eq (job_merge_unit k up) nop)))
          ≡ true)
unfolding job_merge_unit job_is_basic_op
job_merge_unit_basic k up = ground arith
