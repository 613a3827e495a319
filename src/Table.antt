-- ===== src/Table.antt =====
-- core/bin/utils/table.rs: a table that tells its subscribers what changes. `W` is what they change.
pub mod Told
use sysmaster.Base.{ℕ, Bool, Option, none, some, List, [], ◌∷◌, map, if◌then◌else◌}
use sysmaster.Base.Maps.{Key, id_key, find, insert, erase}

pub data TableOp (K V : Type 0) : Type 0 where
  table_insert table_remove : K → V → TableOp K V

pub record Subscriber (K V W : Type 0) : Type 0 where
  pub filter : TableOp K V → Bool
  pub on_change : TableOp K V → W → W

pub record Table (K V W : Type 0) : Type 0 where
  pub data_of : List (K × V)
  pub subscribers : List (ℕ × Subscriber K V W)

module _ {K V W : Type 0} where
  unfoldable pub new_table : Table K V W
  new_table = record { data_of = []; subscribers = [] }

  unfoldable pub notify_each : List (ℕ × Subscriber K V W) → TableOp K V → W → W
  notify_each [] op w = w
  notify_each ((name, s) ∷ ss) op w =
      notify_each ss op (if s.filter op then s.on_change op w else w)

  unfoldable pub data_clear : Table K V W → Table K V W
  data_clear t = record t { data_of = [] }

  unfoldable pub table_clear : Table K V W → Table K V W
  table_clear t = record { data_of = []; subscribers = [] }

  unfoldable pub subscribe :
      Table K V W → ℕ → Subscriber K V W → Table K V W × Option (Subscriber K V W)
  subscribe t name s =
      (record t { subscribers = insert name s t.subscribers }, find name t.subscribers)

  unfoldable pub unsubscribe : Table K V W → ℕ → Table K V W × Option (Subscriber K V W)
  unsubscribe t name =
      (record t { subscribers = erase name t.subscribers }, find name t.subscribers)

  -- `values`
  unfoldable pub get_all : Table K V W → List V
  get_all t = map (λ kv. kv.1) t.data_of

module _ {K V W : Type 0} ⦃e : Key K⦄ where
  -- The old value is handed back.
  unfoldable pub insert_told : Table K V W → K → V → W → Table K V W × W × Option V
  unfolding notify_each
  insert_told t k v w = (
    record t { data_of = insert k v t.data_of },
    notify_each t.subscribers (table_insert k v) w,
    find k t.data_of,
  )

  unfoldable pub remove_told : Table K V W → K → W → Table K V W × W × Option V
  unfolding notify_each
  remove_told t k w =
      let t1 = record t { data_of = erase k t.data_of } in
      elim (find k t.data_of) [
        | none ↦ (t1, w, none)
        | some v ↦ (t1, notify_each t.subscribers (table_remove k v) w, some v)
      ]

  unfoldable pub table_at : Table K V W → K → Option V
  table_at t k = find k t.data_of
