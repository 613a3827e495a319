-- ===== src/Reli/Station.antt =====
-- core/lib/rel/station.rs: the parts of the manager that are recovered. A station is the record of
-- its functions over the state `W` of them all.
use sysmaster.Base.{ℕ, Bool, true, false, Option, none, some, List, [], ◌∷◌, ◌≡◌, ◌↔◌, arith}
use sysmaster.Base.Maps.{Key, id_key, find, insert, erase}
use sysmaster.Reli.Last.{ReliFrame}

pub data StationKind : Type 0 where
  level1 level2 : StationKind

abbrev pub same_kind : StationKind → StationKind → Bool
same_kind level1 level1 = true
same_kind level2 level2 = true
same_kind _ _ = false

pub same_kind_iff : (j k : StationKind) → (same_kind j k ≡ true) ↔ (j ≡ k)
same_kind_iff level1 level1 = ground arith
same_kind_iff level1 level2 = ground arith
same_kind_iff level2 level1 = ground arith
same_kind_iff level2 level2 = ground arith

instance abbrev pub kind_key : Key StationKind
kind_key = record { same = same_kind; same_iff = same_kind_iff }

-- `ReStation`, less the functions that a reload calls.
pub record Station (W : Type 0) : Type 0 where
  pub input_rebuild : W → W
  pub db_compensate_last : W → ReliFrame → Option ℕ → W
  pub db_compensate_history : W → W
  pub do_compensate_last : W → ReliFrame → Option ℕ → W
  pub do_compensate_others : W → Option ℕ → W
  pub db_map : W → W

module _ {W : Type 0} where
  unfoldable pub each_station : (Station W → W → W) → List (ℕ × Station W) → W → W
  each_station f [] w = w
  each_station f ((name, s) ∷ stations) w = each_station f stations (f s w)

pub record ReliStation (W : Type 0) : Type 0 where
  pub t_name : List (ℕ × Station W)
  pub t_kind : List (StationKind × List (ℕ × Station W))

abbrev stations_of : {W : Type 0} → Option (List (ℕ × Station W)) → List (ℕ × Station W)
stations_of none = []
stations_of (some stations) = stations

module _ {W : Type 0} where
  unfoldable pub new_stations : ReliStation W
  new_stations = record { t_name = []; t_kind = [] }

  -- Only a new name is entered in the table of kinds.
  unfoldable pub station_register : ReliStation W → ℕ → StationKind → Station W → ReliStation W
  station_register r name kind s =
      let r1 = record r { t_name = insert name s r.t_name } in
      elim (find name r.t_name) [
        | none ↦ record r1 {
          t_kind =
              insert kind (insert name s (stations_of (find kind r.t_kind))) (erase kind r.t_kind);
        }
        | some old ↦ r1
      ]

  unfoldable pub get_kind : ReliStation W → StationKind → List (ℕ × Station W)
  get_kind r kind = stations_of (find kind r.t_kind)

  unfoldable pub stations_rebuild : ReliStation W → W → W
  unfolding each_station
  stations_rebuild r w = each_station (λ s. s.input_rebuild) r.t_name w

  -- The history first, and then the last frame.
  unfoldable pub stations_compensate : ReliStation W → Option ReliFrame → Option ℕ → W → W
  stations_compensate r lframe lunit w =
      let w1 = each_station (λ s. s.db_compensate_history) r.t_name w in
      elim lframe [
        | none ↦ w1
        | some lf ↦ each_station (λ s v. s.db_compensate_last v lf lunit) r.t_name w1
      ]

  unfoldable pub stations_map : ReliStation W → W → W
  unfolding get_kind
  stations_map r w =
      each_station (λ s. s.db_map) (get_kind r level2)
        (each_station (λ s. s.db_map) (get_kind r level1) w)

  -- The last frame first, and then the others.
  unfoldable pub stations_consistent : ReliStation W → Option ReliFrame → Option ℕ → W → W
  stations_consistent r lframe lunit w =
      let w1 : W = elim lframe [
        | none ↦ w
        | some lf ↦ each_station (λ s v. s.do_compensate_last v lf lunit) r.t_name w
      ] in
      each_station (λ s v. s.do_compensate_others v lunit) r.t_name w1

  unfoldable pub stations_clear : ReliStation W → ReliStation W
  stations_clear r = record { t_name = []; t_kind = [] }
