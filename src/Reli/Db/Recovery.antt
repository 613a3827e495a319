-- ===== src/Reli/Db/Recovery.antt =====
-- What a table finds in its database after the process has been executed again.
use sysmaster.Base.{
  Bool, Option, none, some, List, [], ◌∷◌, ◌≡◌, ◌∙◌, sym, ap, refl, is_some, if◌then◌else◌, arith,
}
use sysmaster.Base.Maps.{Key, find, find-insert, find-erase}
use sysmaster.Reli.Db.{
  Heed, HeedLaws, ReDb, set_ignore, db_insert, db_remove, put_all, delete_all, cache_2_db,
  db_2_cache, collect, db_get,
}

abbrev or_else : {V : Type 0} → Option V → Option V → Option V
or_else none o = o
or_else (some v) o = some v

-- The changes that are made to a table between two transactions.
pub data Change (K V : Type 0) : Type 0 where
  put_in : K → V → Change K V
  take_out : K → Change K V
  ignoring : Bool → Change K V

module _ {K V D : Type 0} ⦃e : Key K⦄ where
  abbrev pub change : ReDb K V D → Change K V → ReDb K V D
  change r (put_in k v) = db_insert r k v
  change r (take_out k) = db_remove r k
  change r (ignoring b) = set_ignore r b

  unfoldable pub changes : ReDb K V D → List (Change K V) → ReDb K V D
  changes r [] = r
  changes r (c ∷ cs) = changes (change r c) cs

module _ {K V D : Type 0} ⦃e : Key K⦄ {h : Heed K V D} (laws : HeedLaws h) where
  put_all-get :
      (d : D) (m : List (K × V)) (j : K)
      → h.heed_get (put_all h d m) j ≡ or_else (find j m) (h.heed_get d j)
  unfolding put_all find
  put_all-get d [] j = refl
  put_all-get d ((k, v) ∷ m) j =
      ground (
        arith,
        laws.get_put (put_all h d m) k v j,
        put_all-get d m j,
        e.same_iff k j,
        e.same_iff j k,
      )

  delete_all-get :
      (d : D) (m : List (K × Unit {0})) (j : K)
      → h.heed_get (delete_all h d m) j ≡ (if is_some (find j m) then none else h.heed_get d j)
  unfolding delete_all find
  delete_all-get d [] j = refl
  delete_all-get d ((k, u) ∷ m) j = ground (
    arith,
    laws.get_delete (delete_all h d m) k j,
    delete_all-get d m j,
    e.same_iff k j,
    e.same_iff j k,
  )

  find-collect : (j : K) (m : List (K × V)) → find j (collect m) ≡ find j m
  unfolding collect find
  find-collect j [] = refl
  find-collect j ((k, v) ∷ m) =
      ground
        (arith, find-insert j k v (collect m), find-collect j m, e.same_iff k j, e.same_iff j k)

  -- What the cache holds is what the database would hold after the next transaction.
  abbrev pub IsTracked : ReDb K V D → Type 0
  IsTracked r =
      (j : K)
      → find j r.cache
        ≡ (if is_some (find j r.del) then none else or_else (find j r.add) (h.heed_get r.db j))

  get-cache_2_db :
      (r : ReDb K V D) → IsTracked r → (j : K) → h.heed_get (cache_2_db h r).db j ≡ find j r.cache
  unfolding cache_2_db
  get-cache_2_db r t j =
      ground (arith, t j, delete_all-get (put_all h r.db r.add) r.del j, put_all-get r.db r.add j)

  pub cache_2_db-IsTracked : (r : ReDb K V D) → IsTracked r → IsTracked (cache_2_db h r)
  unfolding cache_2_db find
  cache_2_db-IsTracked r t j = sym (get-cache_2_db r t j)

  pub db_2_cache-IsTracked : (r : ReDb K V D) → IsTracked (db_2_cache h r)
  unfolding db_2_cache find
  db_2_cache-IsTracked r j = find-collect j (h.entries r.db) ∙ laws.entries_get r.db j

  change-IsTracked : (c : Change K V) (r : ReDb K V D) → IsTracked r → IsTracked (change r c)
  unfolding db_insert db_remove set_ignore
  change-IsTracked (put_in k v) r t j =
      ground (arith, t j, find-insert j k v r.cache, find-insert j k v r.add, find-erase j k r.del)
  change-IsTracked (take_out k) r t j =
      ground (arith, t j, find-erase j k r.cache, find-erase j k r.add, find-insert j k tt r.del)
  change-IsTracked (ignoring b) r t j = t j

  -- From a table that agrees with its database, changes lead to one that agrees with it.
  pub changes-IsTracked :
      (cs : List (Change K V)) (r : ReDb K V D) → IsTracked r → IsTracked (changes r cs)
  unfolding changes
  changes-IsTracked [] r t = t
  changes-IsTracked (c ∷ cs) r t = changes-IsTracked cs (change r c) (change-IsTracked c r t)

  changes-db : (cs : List (Change K V)) (r : ReDb K V D) → (changes r cs).db ≡ r.db
  unfolding changes db_insert db_remove set_ignore
  changes-db [] r = refl
  changes-db (put_in k v ∷ cs) r = ground (arith, changes-db cs (db_insert r k v))
  changes-db (take_out k ∷ cs) r = ground (arith, changes-db cs (db_remove r k))
  changes-db (ignoring b ∷ cs) r = changes-db cs (set_ignore r b)

  -- A table that was read from its database is changed, written by one transaction and changed
  -- again, in which the process ends: what is read afterwards is what the table held when it was
  -- written, for every key, and nothing of the changes that followed.
  pub recovered :
      (r : ReDb K V D) (cs lost : List (Change K V)) (j : K)
      → db_get (db_2_cache h (changes (cache_2_db h (changes (db_2_cache h r) cs)) lost)) j
        ≡ db_get (changes (db_2_cache h r) cs) j
  unfolding db_get db_2_cache
  recovered r cs lost j =
      let s = changes (db_2_cache h r) cs in
      let t = changes (cache_2_db h s) lost in
      find-collect j (h.entries t.db)
      ∙ laws.entries_get t.db j
      ∙ ap (λ d. h.heed_get d j) (changes-db lost (cache_2_db h s))
      ∙ get-cache_2_db s (changes-IsTracked cs (db_2_cache h r) (db_2_cache-IsTracked r)) j
