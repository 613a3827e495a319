-- ===== src/Table/Told.antt =====
-- A subscriber that keeps a copy of the table.
use sysmaster.Base.{
  ℕ, true, Bool-cases, subst, none, Option-cases, List, [], ◌∷◌, ◌≡◌, refl, sym, ◌∙◌, inl, inr,
  arith,
}
use sysmaster.Base.Maps.{Key, id_key, find, insert, erase, find-insert, find-erase}
use sysmaster.Table.{
  TableOp, table_insert, table_remove, Subscriber, Table, notify_each, insert_told, remove_told,
  table_at,
}

-- A change of a table.
pub data Change (K V : Type 0) : Type 0 where
  put_in : K → V → Change K V
  take_out : K → Change K V

-- A table with its one subscriber's copy.
abbrev pub Copied : Type 0 → Type 0 → Type 0
Copied K V = Table K V (List (K × V)) × List (K × V)

module _ {K V : Type 0} ⦃e : Key K⦄ where
  abbrev pub copy : TableOp K V → List (K × V) → List (K × V)
  copy (table_insert k v) m = insert k v m
  copy (table_remove k v) m = erase k m

  abbrev pub copier : Subscriber K V (List (K × V))
  copier = record { filter = λ op. true; on_change = copy }

  unfoldable pub change : Copied K V → Change K V → Copied K V
  change (t, m) (put_in k v) = let (t1, m1, old) = insert_told t k v m in (t1, m1)
  change (t, m) (take_out k) = let (t1, m1, old) = remove_told t k m in (t1, m1)

  unfoldable pub changes : Copied K V → List (Change K V) → Copied K V
  unfolding change
  changes s [] = s
  changes s (c ∷ cs) = changes (change s c) cs

  abbrev IsCopied : Copied K V → ℕ → Type 0
  IsCopied s name =
      (s.0.subscribers ≡ (name, copier) ∷ []) × ((k : K) → find k s.1 ≡ table_at s.0 k)

  change-IsCopied :
      (s : Copied K V) (name : ℕ) (c : Change K V) → IsCopied s name → IsCopied (change s c) name
  unfolding change insert_told remove_told notify_each table_at
  change-IsCopied (t, m) name (put_in k v) (only, same) = (
    only,
    λ j. rw only (ground (arith, find-insert j k v m, find-insert j k v t.data_of, same j)),
  )
  change-IsCopied (t, m) name (take_out k) (only, same) = elim (Option-cases (find k t.data_of)) [
    | inl f ↦
        rw (IsCopied, change, remove_told, f)
          (
            only,
            λ j.
                same j
                ∙ sym (
                    find-erase j k t.data_of ∙ elim (Bool-cases (e.same k j)) [
                      | inl c ↦
                          rw c (sym (subst (λ i. find i t.data_of ≡ none) ((e.same_iff k j).0 c) f))
                      | inr c ↦ rw c refl
                    ]),
          )
    | inr (v, f) ↦
        rw (IsCopied, change, remove_told, f)
          (only, λ j. rw only (ground (arith, find-erase j k m, find-erase j k t.data_of, same j)))
  ]

  -- A subscriber that takes over each change it is told of has what the table has, for every key,
  -- after any sequence of insertions and removals, when it has it at the start.
  pub changes-copied :
      (cs : List (Change K V)) (s : Copied K V) (name : ℕ)
      → s.0.subscribers ≡ (name, copier) ∷ []
      → ((k : K) → find k s.1 ≡ table_at s.0 k)
      → (k : K) → find k (changes s cs).1 ≡ table_at (changes s cs).0 k
  unfolding changes
  changes-copied [] s name only same k = same k
  changes-copied (c ∷ cs) s name only same k =
      let (o, m) = change-IsCopied s name c (only, same) in
      changes-copied cs (change s c) name o m k
