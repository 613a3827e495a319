-- ===== src/Job/Kind.antt =====
-- core/bin/job/rentry.rs: the kinds and the attributes of a job.
use sysmaster.Base.{ℕ, Bool, true, false, ◌==◌, ◌||◌}

-- The first six are the basic kinds, the last three compound ones.
pub data JobKind : Type 0 where
  start stop reload restart verify nop try_reload try_restart reload_or_start : JobKind

-- The derived `PartialEq`: by the position of the variant.
abbrev kind_index : JobKind → ℕ
kind_index start = 0
kind_index stop = 1
kind_index reload = 2
kind_index restart = 3
kind_index verify = 4
kind_index nop = 5
kind_index try_reload = 6
kind_index try_restart = 7
kind_index reload_or_start = 8

abbrev pub kind_eq : JobKind → JobKind → Bool
kind_eq a b = kind_index a == kind_index b

unfoldable pub job_is_basic_op : JobKind → Bool
job_is_basic_op try_reload = false
job_is_basic_op try_restart = false
job_is_basic_op reload_or_start = false
job_is_basic_op _ = true

pub record JobAttr : Type 0 where
  pub ignore_order : Bool
  pub irreversible : Bool
  pub force : Bool
  pub no_relevancy : Bool

unfoldable pub new_attr : JobAttr
new_attr = record {
  ignore_order = false;
  irreversible = false;
  force = false;
  no_relevancy = false;
}

-- `JobAttr::or`
unfoldable pub attr_or : JobAttr → JobAttr → JobAttr
attr_or a b = record {
  ignore_order = a.ignore_order || b.ignore_order;
  irreversible = a.irreversible || b.irreversible;
  force = a.force || b.force;
  no_relevancy = a.no_relevancy || b.no_relevancy;
}
