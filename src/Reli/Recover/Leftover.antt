-- ===== src/Reli/Recover/Leftover.antt =====
-- What a recovery leaves of the last words.
use sysmaster.Base.{
  ℕ, true, false, Option, none, some, List, [], ◌∷◌, ◌≡◌, ◌∙◌, refl, ap, sym, subst, All,
}
use sysmaster.Reli.Last.{
  ReliFrame, ReliLast, last_ignore_set, clear_unit, clear_frame, frames, rest, last_unit,
  last_frame,
}
use sysmaster.Reli.Pending.{Descriptors}
use sysmaster.Reli.Station.{
  Station, ReliStation, each_station, stations_rebuild, stations_compensate, stations_map,
  stations_consistent, get_kind, level1, level2,
}
use sysmaster.Reli.Recover.{
  Memory, Reliability, recover, input_rebuild, db_compensate, reli_db_map, reli_make_consistent,
  history_ignore_set, history_import, history_commit, on_tables,
}

module _ {W : Type 0} where
  -- The last words are left alone while they are to be ignored, as by their own functions.
  abbrev pub Respects : (Memory W → Memory W) → Type 0
  Respects f = (m : Memory W) → m.last.ignore ≡ true → (f m).last ≡ m.last

  pub record IsQuiet (s : Station (Memory W)) : Type 0 where
    pub on_input : Respects s.input_rebuild
    pub on_last : (f : ReliFrame) (u : Option ℕ) → Respects (λ m. s.db_compensate_last m f u)
    pub on_history : Respects s.db_compensate_history
    pub on_rerun : (f : ReliFrame) (u : Option ℕ) → Respects (λ m. s.do_compensate_last m f u)
    pub on_others : (u : Option ℕ) → Respects (λ m. s.do_compensate_others m u)
    pub on_map : Respects s.db_map

  abbrev pub AreQuiet : List (ℕ × Station (Memory W)) → Type 0
  AreQuiet stations = All (λ s. IsQuiet s.1) stations

  each_station-last :
      (f : Station (Memory W) → Memory W → Memory W)
      → ((s : Station (Memory W)) → IsQuiet s → Respects (f s))
      → (stations : List (ℕ × Station (Memory W))) (m : Memory W) → AreQuiet stations
      → m.last.ignore ≡ true
      → (each_station f stations m).last ≡ m.last
  unfolding each_station
  each_station-last f h [] m q i = refl
  each_station-last f h ((name, s) ∷ stations) m q i =
      each_station-last f h stations (f s m) q.1 (ap (λ l. l.ignore) (h s q.0 m i) ∙ i)
      ∙ h s q.0 m i

  pub record IsTame (r : ReliStation (Memory W)) : Type 0 where
    pub named : AreQuiet r.t_name
    pub first : AreQuiet (get_kind r level1)
    pub second : AreQuiet (get_kind r level2)

  module _ (r : ReliStation (Memory W)) (q : IsTame r) where
    stations_rebuild-last : Respects (λ m. stations_rebuild r m)
    unfolding stations_rebuild
    stations_rebuild-last m i =
        each_station-last (λ s. s.input_rebuild) (λ s h. h.on_input) r.t_name m q.named i

    stations_map-last : Respects (λ m. stations_map r m)
    unfolding stations_map
    stations_map-last m i =
        let f = λ (s : Station (Memory W)). s.db_map in
        let h = λ (s : Station (Memory W)) (k : IsQuiet s). k.on_map in
        let m1 = each_station f (get_kind r level1) m in
        let e = each_station-last f h (get_kind r level1) m q.first i in
        each_station-last f h (get_kind r level2) m1 q.second (ap (λ l. l.ignore) e ∙ i) ∙ e

    stations_compensate-last :
        (f : Option ReliFrame) (u : Option ℕ) → Respects (λ m. stations_compensate r f u m)
    unfolding stations_compensate
    stations_compensate-last none u m i =
        each_station-last (λ s. s.db_compensate_history) (λ s h. h.on_history) r.t_name m q.named i
    stations_compensate-last (some f) u m i =
        let m1 = each_station (λ s. s.db_compensate_history) r.t_name m in
        let e =
          each_station-last (λ s. s.db_compensate_history) (λ s h. h.on_history) r.t_name m q.named
            i in
        each_station-last (λ s v. s.db_compensate_last v f u) (λ s h. h.on_last f u) r.t_name m1
          q.named (ap (λ l. l.ignore) e ∙ i)
        ∙ e

    stations_consistent-last :
        (f : Option ReliFrame) (u : Option ℕ) → Respects (λ m. stations_consistent r f u m)
    unfolding stations_consistent
    stations_consistent-last none u m i =
        each_station-last (λ s v. s.do_compensate_others v u) (λ s h. h.on_others u) r.t_name m
          q.named i
    stations_consistent-last (some f) u m i =
        let m1 = each_station (λ s v. s.do_compensate_last v f u) r.t_name m in
        let e =
          each_station-last (λ s v. s.do_compensate_last v f u) (λ s h. h.on_rerun f u) r.t_name m
            q.named i in
        each_station-last (λ s v. s.do_compensate_others v u) (λ s h. h.on_others u) r.t_name m1
          q.named (ap (λ l. l.ignore) e ∙ i)
        ∙ e

-- What `recover` leaves of what was there before it.
unfoldable pub left_over : ReliLast → ReliLast
left_over l = record { ignore = false; unit_db = none; frame_db = some (rest (frames l.frame_db)) }

abbrev Keeps : {E W : Type 0} → Reliability E W → Reliability E W → Type 0
Keeps r s = (s.memory.last ≡ r.memory.last) × (s.stations ≡ r.stations)

-- The steps of a recovery, while the last words are ignored.
module _ {E W : Type 0} (r : Reliability E W) (q : IsTame r.stations)
    (i : r.memory.last.ignore ≡ true) where
  input_rebuild-Keeps : Keeps r (input_rebuild r)
  unfolding input_rebuild history_ignore_set on_tables
  input_rebuild-Keeps =
      let r1 = history_ignore_set r true in (stations_rebuild-last r.stations q r1.memory i, refl)

  db_compensate-Keeps : Keeps r (db_compensate r)
  unfolding db_compensate history_commit on_tables
  db_compensate-Keeps = (
    stations_compensate-last r.stations q (last_frame r.memory.last) (last_unit r.memory.last)
        r.memory i,
    refl,
  )

  reli_db_map-Keeps : Keeps r (reli_db_map r)
  unfolding reli_db_map history_ignore_set on_tables
  reli_db_map-Keeps =
      let r1 = history_ignore_set r true in (stations_map-last r.stations q r1.memory i, refl)

  reli_make_consistent-Keeps : (ops : Descriptors E) → Keeps r (reli_make_consistent ops r)
  unfolding reli_make_consistent history_commit on_tables
  reli_make_consistent-Keeps ops = (
    stations_consistent-last r.stations q (last_frame r.memory.last) (last_unit r.memory.last)
        r.memory i,
    refl,
  )

module _ {E W : Type 0} (ops : Descriptors E) (r : Reliability E W) (q : IsTame r.stations) where
  abbrev Stays : Reliability E W → Type 0
  Stays s = (s.memory.last ≡ last_ignore_set r.memory.last true) × (s.stations ≡ r.stations)

  -- One more step of the recovery.
  stays :
      (f : Reliability E W → Reliability E W)
      → ((s : Reliability E W) → IsTame s.stations → s.memory.last.ignore ≡ true → Keeps s (f s))
      → (s : Reliability E W) → Stays s
      → Stays (f s)
  unfolding last_ignore_set
  stays f h s st =
      let k = h s (subst IsTame (sym st.1) q) (ap (λ l. l.ignore) st.0) in (k.0 ∙ st.0, k.1 ∙ st.1)

  -- A recovery, of stations that leave the last words alone while they are ignored, forgets the
  -- last unit and the last frame, and leaves every frame below the last: they are what the next
  -- recovery finds.
  pub recover-left_over : (recover ops r).memory.last ≡ left_over r.memory.last
  unfolding recover left_over last_ignore_set clear_unit clear_frame
  recover-left_over =
      let r1 =
        history_import
          (record r { memory = record r.memory { last = last_ignore_set r.memory.last true } }) in
      let s2 = stays input_rebuild input_rebuild-Keeps r1 (refl, refl) in
      let s3 = stays db_compensate db_compensate-Keeps (input_rebuild r1) s2 in
      let r3 = db_compensate (input_rebuild r1) in
      let s4 = stays reli_db_map reli_db_map-Keeps r3 s3 in
      let s5 =
        stays (λ s. reli_make_consistent ops s) (λ s k i. reli_make_consistent-Keeps s k i ops)
          (reli_db_map r3) s4 in
      ap (λ l. clear_frame (clear_unit (last_ignore_set l false))) s5.0
