-- ===== src/Tests/Recovery.antt =====
-- The theorems on the reliability engine at concrete inputs: a database that is the list of its
-- entries, and an engine with one station, which writes what it does into its world.
use sysmaster.Base.{ℕ, ◌+◌, true, false, none, some, List, [], ◌∷◌, ◌≡◌, refl}
use sysmaster.Base.Maps.{id_key, find, insert, erase, find-insert, find-erase}
use sysmaster.Reli.Db.{
  Heed, HeedLaws, ReDb, new_db, db_2_cache, cache_2_db, db_get, db_remove, db_insert, collect,
}
use sysmaster.Reli.Db.Recovery.{put_in, take_out, changes, recovered}
use sysmaster.Reli.Pending.{Descriptors}
use sysmaster.Reli.Station.{Station, ReliStation, level1, new_stations, station_register, get_kind}
use sysmaster.Reli.Recover.{Memory, Reliability, recover}
use sysmaster.Reli.Recover.Leftover.{IsQuiet, IsTame, left_over, recover-left_over}

abbrev entries : Heed ℕ ℕ (List (ℕ × ℕ))
entries = record {
  put = λ d k v. insert k v d;
  delete = λ d k. erase k d;
  clear = λ d. [];
  heed_get = λ d k. find k d;
  entries = λ d. d;
}

entries_laws : HeedLaws entries
unfolding find
entries_laws = record {
  get_put = λ d k v j. find-insert j k v d;
  get_delete = λ d k j. find-erase j k d;
  get_clear = λ d j. refl;
  entries_get = λ d j. refl;
}

-- The database has 5 under 1; 6 is put under 2 and 1 is taken out, and then 2 is taken out, in a
-- transaction that does not come about.
abbrev table : ReDb ℕ ℕ (List (ℕ × ℕ))
table = new_db ((1, 5) ∷ [])

recovered_example :
    db_get
      (db_2_cache entries (
        changes
          (cache_2_db entries (changes (db_2_cache entries table) (put_in 2 6 ∷ take_out 1 ∷ [])))
          (take_out 2 ∷ [])))
      2
    ≡ db_get (changes (db_2_cache entries table) (put_in 2 6 ∷ take_out 1 ∷ [])) 2
recovered_example = recovered entries_laws table (put_in 2 6 ∷ take_out 1 ∷ []) (take_out 2 ∷ []) 2

-- What is read is 6.
read_back : db_get (changes (db_2_cache entries table) (put_in 2 6 ∷ take_out 1 ∷ [])) 2 ≡ some 6
unfolding db_get changes db_2_cache find insert erase new_db db_remove db_insert collect
read_back = refl

abbrev counting : Station (Memory ℕ)
counting = record {
  input_rebuild = λ m. record m { world = m.world + 1 };
  db_compensate_last = λ m f u. record m { world = m.world + 10 };
  db_compensate_history = λ m. m;
  do_compensate_last = λ m f u. record m { world = m.world + 100 };
  do_compensate_others = λ m u. m;
  db_map = λ m. record m { world = m.world + 1000 };
}

counting-IsQuiet : IsQuiet counting
counting-IsQuiet = record {
  on_input = λ m i. refl;
  on_last = λ f u m i. refl;
  on_history = λ m i. refl;
  on_rerun = λ f u m i. refl;
  on_others = λ u m i. refl;
  on_map = λ m i. refl;
}

abbrev one_station : ReliStation (Memory ℕ)
one_station = station_register new_stations 1 level1 counting

one_station-IsTame : IsTame one_station
unfolding station_register new_stations insert erase find get_kind
one_station-IsTame = record {
  named = (counting-IsQuiet, tt);
  first = (counting-IsQuiet, tt);
  second = tt;
}

abbrev no_descriptors : Descriptors (Unit {0})
no_descriptors = record {
  fd_cloexec = λ e fd b. (e, true);
  fd_is_cloexec = λ e fd. false;
  close = λ e fd. e;
}

-- The process has ended in the frame 3, which was entered in the frame 0, for unit 7.
abbrev stopped : Reliability (Unit {0}) ℕ
stopped = record {
  enable = true;
  pending = record { fd = []; env = tt };
  history_ignore = false;
  dbs = [];
  stations = one_station;
  memory = record {
    last = record {
      ignore = false;
      unit_db = some 7;
      frame_db = some (
          record { f1 = 3; f2 = none; f3 = none } ∷ record { f1 = 0; f2 = some 0; f3 = none } ∷ []);
    };
    world = 0;
  };
}

recover-left_over_example : (recover no_descriptors stopped).memory.last ≡ record {
  ignore = false;
  unit_db = none;
  frame_db = some (record { f1 = 0; f2 = some 0; f3 = none } ∷ []);
}
unfolding left_over
recover-left_over_example = recover-left_over no_descriptors stopped one_station-IsTame
