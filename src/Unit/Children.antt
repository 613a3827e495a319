-- ===== src/Unit/Children.antt =====
-- core/bin/unit/datastore/child.rs, core/bin/unit/entry/child.rs and core/bin/unit/sigchld.rs: the
-- processes that are watched for units, and what happens when one of them ends. The record of a unit's
-- processes in the database is `rentry_child`.
pub mod Reaped
use sysmaster.Base.{
  ℕ, zero, suc, Bool, true, false, not, Option, none, some, List, [], ◌∷◌, Checked, panic, ok,
  unwrap, ◌>>=◌, ◌>>◌, is_some, ◌==◌, if◌then◌else◌,
}
use sysmaster.Base.Maps.{id_key, find, insert, erase, keys}
use sysmaster.Event.Clock.{ℤ, pos, negsuc}
use sysmaster.Reli.Last.{ReliLast, ReliFrame, set_unit, clear_unit, set_frame, clear_frame}

abbrev pub PidSet : Type 0
PidSet = List (ℕ × Unit {0})

put_pids : List ℕ → PidSet → PidSet
put_pids [] ps = ps
put_pids (pid ∷ pids) ps = put_pids pids (insert pid tt ps)

-- The table of units by name, `watch_pids`, the `pids` of each unit and their record.
pub record Children (E : Type 0) : Type 0 where
  pub units : List (ℕ × Unit {0})
  pub watch_pids : List (ℕ × ℕ)
  pub pids : ℕ → PidSet
  pub rentry_child : ℕ → List ℕ
  pub last : ReliLast
  pub env : E

module _ {E : Type 0} where
  -- `UeChild`: a change is written to the database.
  unfoldable pub set_pids : Children E → ℕ → PidSet → Children E
  set_pids c u ps = record c {
    pids = λ v. if v == u then ps else c.pids v;
    rentry_child = λ v. if v == u then keys ps else c.rentry_child v;
  }

  unfoldable pub child_add_pids : Children E → ℕ → ℕ → Children E
  unfolding set_pids
  child_add_pids c u pid = set_pids c u (insert pid tt (c.pids u))

  unfoldable pub child_remove_pids : Children E → ℕ → ℕ → Children E
  unfolding set_pids
  child_remove_pids c u pid = set_pids c u (erase pid (c.pids u))

  unfoldable pub child_db_map : Children E → ℕ → Children E
  unfolding put_pids
  child_db_map c u = record c {
    pids = λ v. if v == u then put_pids (c.rentry_child u) (c.pids u) else c.pids v;
  }

  -- `UnitChild`: a unit that is not there is a panic.
  unfoldable pub add_watch_pid : Children E → ℕ → ℕ → Checked (Children E)
  unfolding child_add_pids
  add_watch_pid c u pid = do
    _ ← unwrap (find u c.units)
    ok (child_add_pids (record c { watch_pids = insert pid u c.watch_pids }) u pid)

  unfoldable pub unwatch_pid : Children E → ℕ → ℕ → Checked (Children E)
  unfolding child_remove_pids
  unwatch_pid c u pid = do
    _ ← unwrap (find u c.units)
    ok (child_remove_pids (record c { watch_pids = erase pid c.watch_pids }) u pid)

  unfoldable pub get_unit_by_pid : Children E → ℕ → Option ℕ
  get_unit_by_pid c pid = find pid c.watch_pids

  watch_all : Children E → ℕ → List ℕ → Children E
  watch_all c u [] = c
  watch_all c u (pid ∷ pids) =
      watch_all (record c { watch_pids = insert pid u c.watch_pids }) u pids

  -- `db_map` over the units that the database has.
  unfoldable pub watch_db_map : Children E → List ℕ → Checked (Children E)
  unfolding watch_all
  watch_db_map c [] = ok c
  watch_db_map c (u ∷ us) = do
    _ ← unwrap (find u c.units)
    watch_db_map (watch_all c u (c.rentry_child u)) us

  unfoldable pub watch_clear : Children E → Children E
  watch_clear c = record c { watch_pids = [] }

-- The answer of `waitid`.
pub data ChildStatus : Type 0 where
  exited : ℤ → ℤ → ChildStatus
  signaled : ℤ → ℕ → ChildStatus
  still_alive other : ChildStatus

-- The process id of a child that has ended.
unfoldable pub ended_pid : ChildStatus → Option ℤ
ended_pid (exited pid code) = some pid
ended_pid (signaled pid signal) = some pid
ended_pid still_alive = none
ended_pid other = none

-- A peek leaves the child as it is, `none` for an error; `reap` takes it away; `sigchld_events` is the
-- unit's, which may watch and unwatch processes.
pub record Processes (E : Type 0) : Type 0 where
  pub peek_child : E → E × Option ChildStatus
  pub reap : E → ℕ → E
  pub sigchld_events : Children E → ℕ → ChildStatus → Children E
  pub commit : E → E

is_alive : ChildStatus → Bool
is_alive still_alive = true
is_alive _ = false

module _ {E : Type 0} (out : Processes E) where
  -- The event of a process, and the zombie taken away; the source stays on.
  unfoldable pub child_ended : Children E → ℕ → ChildStatus → Checked (Children E × Bool)
  child_ended c pid status =
      (elim (get_unit_by_pid c pid) [
        | none ↦ ok c
        | some u ↦ do
          c1 ←
              unwatch_pid (out.sigchld_events (record c { last = set_unit c.last u }) u status) u
                pid
          ok (record c1 { env = out.commit c1.env; last = clear_unit c1.last })
      ])
      >>= λ c2. ok (record c2 { env = out.reap c2.env pid }, true)

  positive : ℤ → (ℕ → Checked (Children E × Bool)) → Children E → Checked (Children E × Bool)
  positive (pos zero) f c = ok (c, false)
  positive (pos (suc n)) f c = f (suc n)
  positive (negsuc n) f c = ok (c, false)

  -- The answer is whether the source stays enabled.
  unfoldable pub sigchld_dispatch : Children E → Checked (Children E × Bool)
  unfolding child_ended positive is_alive ended_pid
  sigchld_dispatch c =
      let (e, answer) = out.peek_child c.env in
      let c1 = record c { env = e } in
      elim answer [
        | none ↦ ok (c1, false)
        | some status ↦ elim (ended_pid status) [
          | none ↦ ok (c1, not (is_alive status))
          | some pid ↦ positive pid (λ p. child_ended c1 p status) c1
        ]
      ]

  -- The source, which is turned off when nothing is left to wait for.
  unfoldable pub sigchld_source : Children E → Checked (Children E × Bool)
  unfolding sigchld_dispatch
  sigchld_source c = do
    (c1, enable) ←
        sigchld_dispatch
          (record c { last = set_frame c.last (record { f1 = 2; f2 = none; f3 = none }) })
    ok (record c1 { env = out.commit c1.env; last = clear_frame c1.last }, enable)
