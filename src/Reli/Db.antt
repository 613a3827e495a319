-- ===== src/Reli/Db.antt =====
-- core/lib/rel/base.rs: `ReDb`, a table with its cache and the changes that the database does not
-- hold yet. A database of heed is the interface `Heed`, the calls of which return no error.
pub mod Recovery
use sysmaster.Base.{
  ℕ, Bool, true, false, Option, none, some, List, [], ◌∷◌, ◌≡◌, is_some, if◌then◌else◌,
}
use sysmaster.Base.Maps.{Key, find, insert, erase, keys}

pub record Heed (K V D : Type 0) : Type 0 where
  pub put : D → K → V → D
  pub delete : D → K → D
  pub clear : D → D
  pub heed_get : D → K → Option V
  pub entries : D → List (K × V)

-- What the documentation of heed says of a database: a key has one value, and the entries are what
-- `get` finds.
pub record HeedLaws {K V D : Type 0} ⦃e : Key K⦄ (h : Heed K V D) : Type 0 where
  pub get_put :
      (d : D) (k : K) (v : V) (j : K)
      → h.heed_get (h.put d k v) j ≡ (if e.same k j then some v else h.heed_get d j)
  pub get_delete :
      (d : D) (k j : K)
      → h.heed_get (h.delete d k) j ≡ (if e.same k j then none else h.heed_get d j)
  pub get_clear : (d : D) (j : K) → h.heed_get (h.clear d) j ≡ none
  pub entries_get : (d : D) (j : K) → find j (h.entries d) ≡ h.heed_get d j

pub record ReDb (K V D : Type 0) : Type 0 where
  pub ignore : Bool
  pub db : D
  pub cache : List (K × V)
  pub add : List (K × V)
  pub del : List (K × Unit {0})

module _ {K V D : Type 0} where
  unfoldable pub new_db : D → ReDb K V D
  new_db d = record { ignore = false; db = d; cache = []; add = []; del = [] }

  unfoldable pub set_ignore : ReDb K V D → Bool → ReDb K V D
  set_ignore r ignore = record r { ignore = ignore }

module _ {K V D : Type 0} ⦃e : Key K⦄ where
  unfoldable pub db_insert : ReDb K V D → K → V → ReDb K V D
  db_insert r k v =
      if r.ignore
      then r
      else record r { del = erase k r.del; add = insert k v r.add; cache = insert k v r.cache }

  unfoldable pub db_remove : ReDb K V D → K → ReDb K V D
  db_remove r k =
      if r.ignore
      then r
      else record r { add = erase k r.add; del = insert k tt r.del; cache = erase k r.cache }

  unfoldable pub db_get : ReDb K V D → K → Option V
  db_get r k = find k r.cache

  unfoldable pub db_contains_key : ReDb K V D → K → Bool
  db_contains_key r k = is_some (find k r.cache)

  unfoldable pub db_keys : ReDb K V D → List K
  db_keys r = keys r.cache

  unfoldable pub db_entries : ReDb K V D → List (K × V)
  db_entries r = r.cache

-- The keys of a map and of a database are distinct, so the order of these loops is open.
module _ {K V D : Type 0} (h : Heed K V D) where
  unfoldable pub put_all : D → List (K × V) → D
  put_all d [] = d
  put_all d ((k, v) ∷ m) = h.put (put_all d m) k v

  unfoldable pub delete_all : D → List (K × Unit {0}) → D
  delete_all d [] = d
  delete_all d ((k, u) ∷ m) = h.delete (delete_all d m) k

  unfoldable pub cache_2_db : ReDb K V D → ReDb K V D
  cache_2_db r = record r { db = delete_all (put_all r.db r.add) r.del; add = []; del = [] }

  unfoldable pub do_clear : ReDb K V D → ReDb K V D
  do_clear r = record r { db = h.clear r.db; cache = []; add = []; del = [] }

module _ {K V : Type 0} ⦃e : Key K⦄ where
  unfoldable pub collect : List (K × V) → List (K × V)
  collect [] = []
  collect ((k, v) ∷ m) = insert k v (collect m)

module _ {K V D : Type 0} ⦃e : Key K⦄ where
  unfoldable pub db_2_cache : Heed K V D → ReDb K V D → ReDb K V D
  db_2_cache h r = record r { cache = collect (h.entries r.db); add = []; del = [] }
