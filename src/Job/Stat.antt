-- ===== src/Job/Stat.antt =====
-- core/bin/job/stat.rs: how many jobs of each kind there are, and how many jobs ended how.
pub mod Conservation
use sysmaster.Base.{
  ℕ, ◌+◌, ◌-◌, Bool, true, false, ◌||◌, List, [], ◌∷◌, Checked, ok, panic, ◌>>=◌, length, ltb, leb,
  if◌then◌else◌,
}
use sysmaster.Job.Kind.{JobKind}
use sysmaster.Job.Entry.{JobResult, JobStage, end_with}
use sysmaster.Job.Engine.{JobRef, JobCell}

-- `usize` on a 64-bit target.
abbrev pub usize_mod : ℕ
usize_mod = 18446744073709551616

-- The value stays when the operation would overflow; the Boolean says so.
unfoldable pub value_try_add : ℕ → ℕ → ℕ × Bool
value_try_add value add =
    if ltb (value + add) usize_mod then (value + add, false) else (value, true)

unfoldable pub value_try_sub : ℕ → ℕ → ℕ × Bool
value_try_sub value sub = if leb sub value then (value - sub, false) else (value, true)

pub record JobKindNum : Type 0 where
  pub start : ℕ
  pub stop : ℕ
  pub reload : ℕ
  pub restart : ℕ
  pub verify : ℕ
  pub nop : ℕ

unfoldable pub new_kind_num : JobKindNum
new_kind_num = record { start = 0; stop = 0; reload = 0; restart = 0; verify = 0; nop = 0 }

-- `assert!(!overflow)`
unoverflowed : (ℕ → JobKindNum) → ℕ × Bool → Checked JobKindNum
unoverflowed f (v, true) = panic
unoverflowed f (v, false) = ok (f v)

-- One round of the loops of `JobKindNum::update`, by the operation on the field of the job's kind.
unfoldable pub change_kind : (ℕ → ℕ × Bool) → JobKindNum → JobKind → Checked JobKindNum
unfolding unoverflowed
change_kind op n JobKind.start = unoverflowed (λ v. record n { start = v }) (op n.start)
change_kind op n JobKind.stop = unoverflowed (λ v. record n { stop = v }) (op n.stop)
change_kind op n JobKind.reload = unoverflowed (λ v. record n { reload = v }) (op n.reload)
change_kind op n JobKind.restart = unoverflowed (λ v. record n { restart = v }) (op n.restart)
change_kind op n JobKind.verify = unoverflowed (λ v. record n { verify = v }) (op n.verify)
change_kind op n JobKind.nop = unoverflowed (λ v. record n { nop = v }) (op n.nop)
change_kind op n _ = panic

unfoldable pub change_kinds : (ℕ → ℕ × Bool) → JobKindNum → List JobRef → Checked JobKindNum
change_kinds op n [] = ok n
change_kinds op n (job ∷ jobs) = change_kind op n job.kind >>= λ n'. change_kinds op n' jobs

-- `JobKindNum::update`: the deleted jobs first, then the added ones.
unfoldable pub kind_update : JobKindNum → List JobRef → List JobRef → Checked JobKindNum
kind_update n adds dels = do
  n' ← change_kinds (λ v. value_try_sub v 1) n dels
  change_kinds (λ v. value_try_add v 1) n' adds

unfoldable pub kind_total : JobKindNum → ℕ
kind_total n = n.start + n.stop + n.reload + n.restart + n.verify + n.nop

pub record JobResultCnt : Type 0 where
  pub done : ℕ
  pub cancelled : ℕ
  pub timeout : ℕ
  pub failed : ℕ
  pub dependency : ℕ
  pub skipped : ℕ
  pub invalid : ℕ
  pub asserted : ℕ
  pub unsupported : ℕ
  pub collected : ℕ
  pub once : ℕ
  pub merged : ℕ

unfoldable pub new_result_cnt : JobResultCnt
new_result_cnt = record {
  done = 0;
  cancelled = 0;
  timeout = 0;
  failed = 0;
  dependency = 0;
  skipped = 0;
  invalid = 0;
  asserted = 0;
  unsupported = 0;
  collected = 0;
  once = 0;
  merged = 0;
}

unfoldable pub count_result : JobResultCnt → JobResult → JobResultCnt × Bool
count_result c JobResult.done = let (v, o) = value_try_add c.done 1 in (record c { done = v }, o)
count_result c JobResult.cancelled =
    let (v, o) = value_try_add c.cancelled 1 in (record c { cancelled = v }, o)
count_result c JobResult.timeout =
    let (v, o) = value_try_add c.timeout 1 in (record c { timeout = v }, o)
count_result c JobResult.failed =
    let (v, o) = value_try_add c.failed 1 in (record c { failed = v }, o)
count_result c JobResult.dependency =
    let (v, o) = value_try_add c.dependency 1 in (record c { dependency = v }, o)
count_result c JobResult.skipped =
    let (v, o) = value_try_add c.skipped 1 in (record c { skipped = v }, o)
count_result c JobResult.invalid =
    let (v, o) = value_try_add c.invalid 1 in (record c { invalid = v }, o)
count_result c JobResult.asserted =
    let (v, o) = value_try_add c.asserted 1 in (record c { asserted = v }, o)
count_result c JobResult.unsupported =
    let (v, o) = value_try_add c.unsupported 1 in (record c { unsupported = v }, o)
count_result c JobResult.collected =
    let (v, o) = value_try_add c.collected 1 in (record c { collected = v }, o)
count_result c JobResult.once = let (v, o) = value_try_add c.once 1 in (record c { once = v }, o)
count_result c JobResult.merged =
    let (v, o) = value_try_add c.merged 1 in (record c { merged = v }, o)

-- A job counts when it has ended.
count_ended : JobResultCnt → JobStage → JobResultCnt × Bool
unfolding count_result
count_ended c (end_with result) = count_result c result
count_ended c _ = (c, false)

-- `JobResultCnt::update`
unfoldable pub result_update : (ℕ → JobCell) → JobResultCnt → List JobRef → JobResultCnt × Bool
unfolding count_ended
result_update cells c [] = (c, false)
result_update cells c (job ∷ dels) =
    let (c', o) = count_ended c (cells job.id).stage in
    let (c'', o') = result_update cells c' dels in (c'', o || o')

unfoldable pub result_total : JobResultCnt → ℕ
result_total c =
    c.done + c.cancelled + c.timeout + c.failed + c.dependency + c.skipped + c.invalid + c.asserted
    + c.unsupported + c.collected + c.once + c.merged

pub record JobOpCnt : Type 0 where
  pub add : ℕ
  pub update : ℕ
  pub del : ℕ

unfoldable pub new_op_cnt : JobOpCnt
new_op_cnt = record { add = 0; update = 0; del = 0 }

-- `JobOpCnt::update`
unfoldable pub op_update : JobOpCnt → List JobRef → List JobRef → List JobRef → JobOpCnt × Bool
op_update c adds dels updates =
    let (a, o1) = value_try_add c.add (length adds) in
    let (d, o2) = value_try_add c.del (length dels) in
    let (u, o3) = value_try_add c.update (length updates) in
    (record { add = a; update = u; del = d }, o1 || (o2 || o3))

-- `JobStatData`. The counters of stages are never changed by the code and are left out.
pub record JobStatData : Type 0 where
  pub kind : JobKindNum
  pub result : JobResultCnt
  pub op : JobOpCnt

unfoldable pub new_stat : JobStatData
unfolding new_kind_num new_result_cnt new_op_cnt
new_stat = record { kind = new_kind_num; result = new_result_cnt; op = new_op_cnt }

unfoldable pub clear_cnt : JobStatData → JobStatData
unfolding new_result_cnt new_op_cnt
clear_cnt s = record s { result = new_result_cnt; op = new_op_cnt }

-- `update_changes`: an overflow of the history is ignored.
unfoldable pub update_changes :
    (ℕ → JobCell) → JobStatData → List JobRef → List JobRef → List JobRef → Checked JobStatData
update_changes cells s adds dels updates = do
  n ← kind_update s.kind adds dels
  ok (record {
    kind = n;
    result = (result_update cells s.result dels).0;
    op = (op_update s.op adds dels updates).0;
  })
