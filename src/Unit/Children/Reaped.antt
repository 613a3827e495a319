-- ===== src/Unit/Children/Reaped.antt =====
-- The end of a watched process, and what is watched after the process has been executed again.
use sysmaster.Base.{
  subst, ℕ, true, Bool-cases, none, some, Option-cases, List, [], ◌∷◌, ◌≡◌, refl, ap, ◌∙◌, inl, inr,
  ok, OnOk, All, any, is_some, ◌==◌, ==_iff, ◌≢◌, if◌then◌else◌, arith,
}
use sysmaster.Base.Maps.{id_key, find, insert, erase, keys, find-insert, find-erase}
use sysmaster.Reli.Last.{set_unit, clear_unit}
use sysmaster.Unit.Children.{
  Children, PidSet, Processes, ChildStatus, set_pids, child_add_pids, child_remove_pids,
  add_watch_pid, unwatch_pid, get_unit_by_pid, watch_all, watch_db_map, watch_clear, child_ended,
}

module _ {E : Type 0} (out : Processes E) (c : Children E) (pid : ℕ) (status : ChildStatus)
    (u : ℕ) where
  -- What the unit has made of the end of its process.
  abbrev handled : Children E
  handled = out.sigchld_events (record c { last = set_unit c.last u }) u status

  abbrev pub IsReaped : Children E → Type 0
  IsReaped c' =
      (get_unit_by_pid c' pid ≡ none)
      × (find pid (c'.pids u) ≡ none)
      × ((q : ℕ) → q ≢ pid → get_unit_by_pid c' q ≡ get_unit_by_pid handled q)
      × ((q : ℕ) → q ≢ pid → find q (c'.pids u) ≡ find q (handled.pids u))
      × (c'.rentry_child u ≡ keys (c'.pids u))
      × ((v : ℕ) → v ≢ u → c'.pids v ≡ handled.pids v)
      × ((v : ℕ) → v ≢ u → c'.rentry_child v ≡ handled.rentry_child v)
      × (c'.units ≡ handled.units)
      × (c'.env ≡ out.reap (out.commit handled.env) pid)
      × (c'.last ≡ clear_unit handled.last)

  -- A watched process of a unit has ended: when the unit, which is still there, has handled it, the
  -- process is watched no more and belongs to the unit no more. Every other process is watched for the
  -- unit, and belongs to it, as the unit has left it, and the database has what belongs to the unit
  -- now; the processes of other units, their record and the table of units are as they were left. The
  -- last unit is forgotten, and then the zombie is reaped; the source stays on.
  pub child_ended-IsReaped :
      find pid c.watch_pids ≡ some u
      → find u handled.units ≡ some tt
      → (c' : Children E) × (child_ended out c pid status ≡ ok (c', true)) × IsReaped c'
  unfolding child_ended get_unit_by_pid unwatch_pid child_remove_pids set_pids
  child_ended-IsReaped w there =
      let h = handled in
      (
        record (child_remove_pids (record h { watch_pids = erase pid h.watch_pids }) u pid) {
          last = clear_unit h.last;
          env = out.reap (out.commit h.env) pid;
        },
        rw w (rw there refl),
        (
          ground (arith, find-erase pid pid h.watch_pids, ==_iff pid pid),
          ground (arith, find-erase pid pid (h.pids u), ==_iff pid pid, ==_iff u u),
          λ q n. ground (arith, find-erase q pid h.watch_pids, ==_iff pid q),
          λ q n. ground (arith, find-erase q pid (h.pids u), ==_iff pid q, ==_iff u u),
          ground (arith, ==_iff u u),
          λ v n. ground (arith, ==_iff v u),
          λ v n. ground (arith, ==_iff v u),
          refl,
          refl,
          refl,
        ),
      )

any-keys : (p : ℕ) (m : PidSet) → any (λ q. q == p) (keys m) ≡ is_some (find p m)
unfolding keys find
any-keys p [] = refl
any-keys p ((q, u) ∷ m) = ground (arith, any-keys p m, ==_iff p q, ==_iff q p)

module _ {E : Type 0} where
  -- A process that is watched for a unit is one of its processes, these are written down, and the
  -- unit is there.
  pub record IsSound (c : Children E) : Type 0 where
    pub owned : (p u : ℕ) → find p c.watch_pids ≡ some u → is_some (find p (c.pids u)) ≡ true
    pub written : (p u : ℕ) → any (λ q. q == p) (c.rentry_child u) ≡ is_some (find p (c.pids u))
    pub there : (p u : ℕ) → find p c.watch_pids ≡ some u → is_some (find u c.units) ≡ true

  set_pids-written :
      (c : Children E) (v : ℕ) (ps : PidSet)
      → ((p u : ℕ) → any (λ q. q == p) (c.rentry_child u) ≡ is_some (find p (c.pids u)))
      → (p u : ℕ)
      → any (λ q. q == p) ((set_pids c v ps).rentry_child u)
        ≡ is_some (find p ((set_pids c v ps).pids u))
  unfolding set_pids
  set_pids-written c v ps h p u = ground (arith, any-keys p ps, h p u)

  pub add_watch_pid-IsSound :
      (c : Children E) (v pid : ℕ) → IsSound c → OnOk IsSound (add_watch_pid c v pid)
  unfolding add_watch_pid child_add_pids set_pids
  add_watch_pid-IsSound c v pid s = elim (Option-cases (find v c.units)) [
    | inl f ↦ rw f tt
    | inr (w, f) ↦ rw f (record {
      owned = λ p u h. ground (
        arith,
        s.owned p u,
        find-insert p pid v c.watch_pids,
        find-insert p pid tt (c.pids v),
        ==_iff u v,
        ==_iff v u,
      );
      written =
          set_pids-written (record c { watch_pids = insert pid v c.watch_pids }) v
            (insert pid tt (c.pids v)) s.written;
      there =
          λ p u h. ground (arith, s.there p u, find-insert p pid v c.watch_pids, f, ap is_some f);
    })
  ]

  pub unwatch_pid-IsSound :
      (c : Children E) (v pid : ℕ) → IsSound c → OnOk IsSound (unwatch_pid c v pid)
  unfolding unwatch_pid child_remove_pids set_pids
  unwatch_pid-IsSound c v pid s = elim (Option-cases (find v c.units)) [
    | inl f ↦ rw f tt
    | inr (w, f) ↦ rw f (record {
      owned = λ p u h. ground (
        arith,
        s.owned p u,
        find-erase p pid c.watch_pids,
        find-erase p pid (c.pids v),
        ==_iff u v,
        ==_iff v u,
      );
      written =
          set_pids-written (record c { watch_pids = erase pid c.watch_pids }) v
            (erase pid (c.pids v)) s.written;
      there = λ p u h. ground (arith, s.there p u, find-erase p pid c.watch_pids);
    })
  ]

  -- Processes are watched anew for the unit.
  watch_all-watched :
      (pids : List ℕ) (c : Children E) (u p : ℕ)
      → find p (watch_all c u pids).watch_pids
        ≡ (if any (λ q. q == p) pids then some u else find p c.watch_pids)
  unfolding watch_all
  watch_all-watched [] c u p = ground arith
  watch_all-watched (pid ∷ pids) c u p = ground (
    arith,
    watch_all-watched pids (record c { watch_pids = insert pid u c.watch_pids }) u p,
    find-insert p pid u c.watch_pids,
    ==_iff pid p,
    ==_iff p pid,
  )

  watch_all-rest :
      (pids : List ℕ) (c : Children E) (u : ℕ)
      → ((watch_all c u pids).units ≡ c.units)
        × ((watch_all c u pids).rentry_child ≡ c.rentry_child)
  unfolding watch_all
  watch_all-rest [] c u = (refl, refl)
  watch_all-rest (pid ∷ pids) c u =
      watch_all-rest pids (record c { watch_pids = insert pid u c.watch_pids }) u

  -- Of the units, only `u` has the process written down.
  abbrev IsOnly : Children E → List ℕ → ℕ → ℕ → Type 0
  IsOnly c us p u =
      (v : ℕ) → any (λ w. w == v) us ≡ true → any (λ q. q == p) (c.rentry_child v) ≡ true → v ≡ u

  watch_all-IsOnly :
      (c : Children E) (us : List ℕ) (o p u : ℕ)
      → IsOnly c (o ∷ us) p u
      → get_unit_by_pid c p ≡ some u
      → get_unit_by_pid (watch_all c o (c.rentry_child o)) p ≡ some u
  unfolding get_unit_by_pid
  watch_all-IsOnly c us o p u only w =
      let now = watch_all-watched (c.rentry_child o) c o p in
      elim (Bool-cases (any (λ q. q == p) (c.rentry_child o))) [
        | inl a ↦ now ∙ (rw a (ap some (only o (ground (arith, ==_iff o o)) a)))
        | inr a ↦ now ∙ (rw a w)
      ]

  watch_all-finds :
      (c : Children E) (o p u : ℕ)
      → any (λ q. q == p) (c.rentry_child u) ≡ true
      → o ≡ u
      → get_unit_by_pid (watch_all c o (c.rentry_child o)) p ≡ some u
  unfolding get_unit_by_pid
  watch_all-finds c o p u j e =
      let now = watch_all-watched (c.rentry_child u) c u p in rw e (now ∙ (rw j refl))

  watch_db_map-watched :
      (us : List ℕ) (c : Children E)
      → All (λ u. is_some (find u c.units) ≡ true) us
      → (c' : Children E) × (watch_db_map c us ≡ ok c')
        × ((p u : ℕ)
            → IsOnly c us p u
            → get_unit_by_pid c p ≡ some u
            → get_unit_by_pid c' p ≡ some u)
        × ((p u : ℕ)
            → IsOnly c us p u
            → any (λ v. v == u) us ≡ true
            → any (λ q. q == p) (c.rentry_child u) ≡ true
            → get_unit_by_pid c' p ≡ some u)
  unfolding watch_db_map
  watch_db_map-watched [] c h = (c, refl, λ p u n w. w, λ p u n i j. cc)
  watch_db_map-watched (o ∷ us) c (h, hs) =
      let c1 = watch_all c o (c.rentry_child o) in
      let rest = watch_all-rest (c.rentry_child o) c o in
      let (c', e, keep, more) = watch_db_map-watched us c1 (rw rest.0 hs) in
      let only1 : (p u : ℕ) → IsOnly c (o ∷ us) p u → IsOnly c1 us p u = λ p u only v i j.
        only v (ground (arith, i)) (subst (λ f. any (λ q. q == p) (f v) ≡ true) rest.1 j) in
      (
        c',
        elim (Option-cases (find o c.units)) [
          | inl f ↦ absurd (ground (arith, f, h))
          | inr (w, f) ↦ rw f e
        ],
        λ p u only w. keep p u (only1 p u only) (watch_all-IsOnly c us o p u only w),
        λ p u only i j. elim (Bool-cases (o == u)) [
          | inl a ↦
              keep p u (only1 p u only) (watch_all-finds c o p u j (ground (arith, ==_iff o u, a)))
          | inr a ↦ more p u (only1 p u only) (ground (arith, i, a)) (rw rest.1 j)
        ],
      )

  -- The table of watched processes is lost and read back from the database, over units that are all
  -- there: a process that was watched for one of them, and that the database has for no other of
  -- them, is watched again, for the same unit.
  pub watch_db_map-restored :
      (c : Children E) (us : List ℕ) (p u : ℕ)
      → IsSound c
      → All (λ v. is_some (find v c.units) ≡ true) us
      → get_unit_by_pid c p ≡ some u
      → any (λ v. v == u) us ≡ true
      → IsOnly c us p u
      → (c' : Children E) × (watch_db_map (watch_clear c) us ≡ ok c')
        × (get_unit_by_pid c' p ≡ some u)
  unfolding watch_clear get_unit_by_pid
  watch_db_map-restored c us p u s h w i only =
      let (c', e, keep, more) = watch_db_map-watched us (watch_clear c) h in
      (c', e, more p u only i (s.written p u ∙ s.owned p u w))
