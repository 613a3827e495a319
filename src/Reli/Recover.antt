-- ===== src/Reli/Recover.antt =====
-- core/lib/rel/history.rs and core/lib/rel/api.rs: the tables of the history and `Reliability`, with
-- the recovery of the data. `W` is what the tables and the stations share beside the last words.
pub mod Leftover
use sysmaster.Base.{ℕ, Bool, true, false, Option, none, some, List, [], ◌∷◌, if◌then◌else◌}
use sysmaster.Base.Maps.{id_key, insert}
use sysmaster.Reli.Last.{
  ReliFrame, ReliLast, last_ignore_set, last_data_clear, set_unit, clear_unit, set_frame,
  clear_frame, last_unit, last_frame,
}
use sysmaster.Reli.Pending.{
  Descriptors, ReliPending, FdResult, make_consistent, pending_clear, pending_cloexec, fd_take,
}
use sysmaster.Reli.Station.{
  StationKind, Station, ReliStation, station_register, stations_rebuild, stations_compensate,
  stations_map, stations_consistent, stations_clear,
}

-- What a table of the history does: `ReDbTable`.
pub record ReDbTable (W : Type 0) : Type 0 where
  pub clear : W → W
  pub export : W → W
  pub import : W → W
  pub ignore_set : W → Bool → W

-- What a station sees and changes.
pub record Memory (W : Type 0) : Type 0 where
  pub last : ReliLast
  pub world : W

pub record Reliability (E W : Type 0) : Type 0 where
  pub enable : Bool
  pub pending : ReliPending E
  pub history_ignore : Bool
  pub dbs : List (ℕ × ReDbTable W)
  pub stations : ReliStation (Memory W)
  pub memory : Memory W

module _ {W : Type 0} where
  each_db : (ReDbTable W → W → W) → List (ℕ × ReDbTable W) → W → W
  each_db f [] w = w
  each_db f ((name, db) ∷ dbs) w = each_db f dbs (f db w)

module _ {E W : Type 0} where
  on_tables : (ReDbTable W → W → W) → Reliability E W → Reliability E W
  unfolding each_db
  on_tables f r = record r { memory = record r.memory { world = each_db f r.dbs r.memory.world } }

  abbrev on_last : (ReliLast → ReliLast) → Reliability E W → Reliability E W
  on_last f r = record r { memory = record r.memory { last = f r.memory.last } }

  -- The functions of `ReliHistory`.
  unfoldable pub history_clear : Reliability E W → Reliability E W
  unfolding on_tables
  history_clear r = on_tables (λ db. db.clear) r

  unfoldable pub db_register : Reliability E W → ℕ → ReDbTable W → Reliability E W
  db_register r name db = record r { dbs = insert name db r.dbs }

  unfoldable pub history_commit : Reliability E W → Reliability E W
  unfolding on_tables
  history_commit r = on_tables (λ db. db.export) r

  unfoldable pub history_import : Reliability E W → Reliability E W
  unfolding on_tables
  history_import r = on_tables (λ db. db.import) r

  unfoldable pub history_ignore_set : Reliability E W → Bool → Reliability E W
  unfolding on_tables
  history_ignore_set r ignore =
      on_tables (λ db w. db.ignore_set w ignore) (record r { history_ignore = ignore })

  -- The functions of `Reliability`.
  unfoldable pub set_enable : Reliability E W → Bool → Reliability E W
  set_enable r enable = record r { enable = enable }

  unfoldable pub reli_set_last_unit : Reliability E W → ℕ → Reliability E W
  reli_set_last_unit r u = on_last (λ l. set_unit l u) r

  unfoldable pub clear_last_unit : Reliability E W → Reliability E W
  unfolding history_commit
  clear_last_unit r = on_last clear_unit (history_commit r)

  unfoldable pub set_last_frame : Reliability E W → ReliFrame → Reliability E W
  set_last_frame r f = on_last (λ l. set_frame l f) r

  unfoldable pub set_last_frame1 : Reliability E W → ℕ → Reliability E W
  set_last_frame1 r f1 = on_last (λ l. set_frame l (record { f1 = f1; f2 = none; f3 = none })) r

  unfoldable pub set_last_frame2 : Reliability E W → ℕ → ℕ → Reliability E W
  set_last_frame2 r f1 f2 =
      on_last (λ l. set_frame l (record { f1 = f1; f2 = some f2; f3 = none })) r

  unfoldable pub clear_last_frame : Reliability E W → Reliability E W
  unfolding history_commit
  clear_last_frame r = on_last clear_frame (history_commit r)

  unfoldable pub reli_station_register :
      Reliability E W → ℕ → StationKind → Station (Memory W) → Reliability E W
  reli_station_register r name kind s = record r {
    stations = station_register r.stations name kind s;
  }

  unfoldable pub reli_data_clear : Reliability E W → Reliability E W
  unfolding history_clear
  reli_data_clear r =
      let r1 = history_clear (on_last last_data_clear (record r { enable = false })) in
      record r1 { pending = pending_clear r1.pending }

  unfoldable pub reli_clear : Reliability E W → Reliability E W
  reli_clear r = record r { dbs = []; stations = stations_clear r.stations }

  -- `debug_clear`, when its file is there and it runs for the first time: `enable` is kept.
  unfoldable pub debug_clear : Reliability E W → Reliability E W
  unfolding reli_data_clear
  debug_clear r = set_enable (reli_data_clear r) r.enable

  abbrev on_memory : (Memory W → Memory W) → Reliability E W → Reliability E W
  on_memory f r = record r { memory = f r.memory }

  -- The steps of `recover`.
  unfoldable pub input_rebuild : Reliability E W → Reliability E W
  unfolding history_ignore_set
  input_rebuild r =
      history_ignore_set
        (on_memory (λ m. stations_rebuild r.stations m) (history_ignore_set r true)) false

  unfoldable pub db_compensate : Reliability E W → Reliability E W
  unfolding history_commit
  db_compensate r = history_commit (
      on_memory
        (λ m. stations_compensate r.stations (last_frame r.memory.last) (last_unit r.memory.last) m)
        r)

  unfoldable pub reli_db_map : Reliability E W → Reliability E W
  unfolding history_ignore_set
  reli_db_map r =
      history_ignore_set (on_memory (λ m. stations_map r.stations m) (history_ignore_set r true))
        false

module _ {E W : Type 0} (ops : Descriptors E) where
  unfoldable pub reli_cloexec : Reliability E W → ℕ → Bool → Reliability E W × FdResult
  reli_cloexec r fd cloexec =
      let (p, result) = pending_cloexec ops r.pending fd cloexec in
      (record r { pending = p }, result)

  unfoldable pub reli_make_consistent : Reliability E W → Reliability E W
  unfolding history_commit
  reli_make_consistent r = history_commit (
      on_memory
        (λ m. stations_consistent r.stations (last_frame r.memory.last) (last_unit r.memory.last) m)
        (record r { pending = make_consistent ops r.pending }))

  unfoldable pub recover : Reliability E W → Reliability E W
  unfolding history_import input_rebuild db_compensate reli_db_map reli_make_consistent
  recover r =
      let r1 = history_import (on_last (λ l. last_ignore_set l true) r) in
      let r2 = reli_make_consistent (reli_db_map (db_compensate (input_rebuild r1))) in
      on_last (λ l. clear_frame (clear_unit (last_ignore_set l false))) r2
