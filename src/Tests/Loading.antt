-- ===== src/Tests/Loading.antt =====
-- The theorems on loading, on watched processes and on mount points at concrete inputs.
use sysmaster.Base.{
  ℕ, true, false, not, ◌&&◌, any, none, some, List, [], ◌∷◌, ◌==◌, if◌then◌else◌, ◌≡◌, refl, arith,
  ok, is_some, Option, ==_iff,
}
use sysmaster.Base.Maps.{id_key, find, insert, keys}
use sysmaster.Event.Clock.{pos}
use sysmaster.Reli.Last.{ReliLast, ReliFrame}
use sysmaster.Unit.Relation.{requires}
use sysmaster.Unit.Loading.{
  UnitSection, SubLoad, finish, add_dependency, Loader, Runtime, service, new_load, parse,
  rt_db_map,
}
use sysmaster.Unit.Loading.Ends.{AreNamed, has}
use sysmaster.Unit.Children.{
  Children, Processes, exited, add_watch_pid, watch_db_map, watch_clear, child_ended,
  get_unit_by_pid,
}
use sysmaster.Unit.Children.Reaped.{
  IsSound, IsReaped, child_ended-IsReaped, add_watch_pid-IsSound, watch_db_map-restored,
}
use sysmaster.Unit.Loading.Rerun.{ue_db_map, rt_db_compensate_last, rt_db_map-requeued}
use sysmaster.Mount.Table.{MountUm, name_key, suffix, same_name, names, see_mounts, collect_active}
use sysmaster.Mount.Changes.{left_to_stop}

abbrev wanting : List ℕ → UnitSection
wanting names = record {
  wants = names;
  after = [];
  before = [];
  requires = [];
  binds_to = [];
  requisite = [];
  on_failure = [];
  on_success = [];
  part_of = [];
  conflicts = [];
}

-- The load of a service makes unit 1 require unit 2.
abbrev asking : SubLoad (Unit {0})
asking = add_dependency 1 requires 2 true (λ added. finish added)

-- Every unit is a service, whose configuration can be read: it wants units 1 and 2.
abbrev services : Loader (Unit {0})
services = record {
  unit_type = λ u. service;
  create_unit = λ e u. (e, true);
  load_confs = λ e u b. (e, some (wanting (1 ∷ 2 ∷ [])));
  sub_load = λ e u. asking;
  default_dependencies = λ e u. true;
  commit = λ e. e;
}

abbrev no_words : ReliLast
no_words = record { ignore = false; unit_db = none; frame_db = none }

abbrev no_units : Runtime (Unit {0})
no_units = record {
  units = [];
  loads = λ u. new_load;
  load_queue = [];
  target_dep_queue = [];
  deps = record { t = []; rentry = [] };
  last = no_words;
  env = tt;
}

-- Unit 1 is asked for.
abbrev asked : Runtime (Unit {0})
asked = record no_units {
  units = (1, tt) ∷ [];
  loads =
      λ u. if u == 1 then record new_load { in_load_queue = true; pps_load = true } else new_load;
  load_queue = 1 ∷ [];
}

abbrev NamesTwo : Option UnitSection → Type 0
NamesTwo none = Unit
NamesTwo (some c) = AreNamed services (1 ∷ 2 ∷ []) (parse c)

abbrev watching : Children (Unit {0})
watching = record {
  units = (1, tt) ∷ [];
  watch_pids = (7, 1) ∷ (8, 1) ∷ [];
  pids = λ u. if u == 1 then (7, tt) ∷ (8, tt) ∷ [] else [];
  rentry_child = λ u. if u == 1 then 7 ∷ 8 ∷ [] else [];
  last = no_words;
  env = tt;
}

abbrev processes : Processes (Unit {0})
processes = record {
  peek_child = λ e. (e, some (exited (pos 7) (pos 0)));
  reap = λ e pid. e;
  sigchld_events = λ c u status. c;
  commit = λ e. e;
}

child_ended-IsReaped_example :
    (c' : Children (Unit {0})) × (child_ended processes watching 7 (exited (pos 7) (pos 0))
      ≡ ok (c', true))
    × IsReaped processes watching 7 (exited (pos 7) (pos 0)) 1 c'
unfolding find
child_ended-IsReaped_example =
    child_ended-IsReaped processes watching 7 (exited (pos 7) (pos 0)) 1 refl refl

abbrev nothing_watched : Children (Unit {0})
nothing_watched = record {
  units = (1, tt) ∷ [];
  watch_pids = [];
  pids = λ u. [];
  rentry_child = λ u. [];
  last = no_words;
  env = tt;
}

nothing_watched-IsSound : IsSound nothing_watched
unfolding find
nothing_watched-IsSound = record {
  owned = λ p u h. ground (arith, h);
  written = λ p u. refl;
  there = λ p u h. ground (arith, h);
}

-- Process 7 of unit 1 is watched.
abbrev one_watched : Children (Unit {0})
one_watched = record nothing_watched {
  watch_pids = insert 7 1 [];
  pids = λ u. if u == 1 then insert 7 tt [] else [];
  rentry_child = λ u. if u == 1 then 7 ∷ [] else [];
}

one_watched-IsSound : IsSound one_watched
unfolding add_watch_pid find insert keys
one_watched-IsSound = add_watch_pid-IsSound nothing_watched 1 7 nothing_watched-IsSound

one_watched-IsOnly :
    (v : ℕ)
    → any (λ w. w == v) (1 ∷ []) ≡ true
    → any (λ q. q == 7) (one_watched.rentry_child v) ≡ true
    → v ≡ 1
one_watched-IsOnly v i j = ground (arith, i, ==_iff 1 v)

watch_db_map-restored_example :
    (c' : Children (Unit {0})) × (watch_db_map (watch_clear one_watched) (1 ∷ []) ≡ ok c')
    × (get_unit_by_pid c' 7 ≡ some 1)
unfolding find get_unit_by_pid insert
watch_db_map-restored_example =
    watch_db_map-restored one_watched (1 ∷ []) 7 1 one_watched-IsSound (refl, tt) refl refl
      one_watched-IsOnly

-- The mount units "a" and "b" are active, and "a" has a mount point, "/a".
abbrev mounts : MountUm (Unit {0})
mounts = record {
  mount_units = λ e. (b'a' ∷ suffix) ∷ (b'b' ∷ suffix) ∷ [];
  is_active = λ e u. true;
  read_mountinfo = λ e. some (record { is_autofs = false; point = b'/' ∷ b'a' ∷ [] }) ∷ [];
  load_unit_success = λ e u. (e, true);
  set_last_unit = λ e u. e;
  clear_last_unit = λ e. e;
  um_start = λ e u. (e, true);
  um_stop = λ e u. (e, true);
}

left_to_stop_example :
    is_some (
      find
        (b'b' ∷ suffix)
        (see_mounts mounts
          (mounts.read_mountinfo tt)
          (tt, collect_active mounts tt (mounts.mount_units tt))).1)
    ≡ (any (λ v. true && same_name v (b'b' ∷ suffix)) (mounts.mount_units tt)
        && not (names (mounts.read_mountinfo tt) (b'b' ∷ suffix)))
left_to_stop_example =
    left_to_stop mounts tt (mounts.mount_units tt) (mounts.read_mountinfo tt) (b'b' ∷ suffix)

-- Units 1 and 2 were queued, and the process has ended while 1 was loaded.
abbrev both_queued : Runtime (Unit {0})
both_queued = record no_units {
  units = (1, tt) ∷ (2, tt) ∷ [];
  loads = λ u. record new_load { in_load_queue = true; pps_load = true };
  load_queue = 1 ∷ 2 ∷ [];
}

abbrev in_load : ReliFrame
in_load = record { f1 = 0; f2 = some 0; f3 = none }

rt_db_map-requeued_example :
    (t t' : Runtime (Unit {0})) × (rt_db_compensate_last (ue_db_map both_queued) in_load (some 1)
      ≡ ok t)
    × (rt_db_map t (1 ∷ 2 ∷ []) ≡ ok t')
    × ((v : ℕ)
        → has v t'.load_queue
          ≡ (not (v == 1) && ((both_queued.loads v).pps_load && has v (1 ∷ 2 ∷ []))))
    × ((v : ℕ) → (t'.loads v).in_load_queue ≡ has v t'.load_queue)
unfolding find
rt_db_map-requeued_example =
    rt_db_map-requeued both_queued (1 ∷ 2 ∷ []) 1 in_load refl (refl, (refl, tt))
