-- ===== src/Provider/Offline/Table.antt =====
-- provider/offline.go: `memoryOfflineTable`, the records of each entity. `sort.Sort` is written as an
-- insertion sort: the records of an entity have distinct times, so their order is the only one.
pub mod Writes
pub mod Latest
pub mod PointInTime
use featureform.Common.{
  ℕ, Bool, true, false, Option, none, some, List, [], ◌∷◌, ◌++◌, if◌then◌else◌, ◌==◌, ltb, Result,
  ok, err, Action, Map, find, put, ◌>>=◌,
}
use featureform.Text.{Text, text_keys}
use featureform.Provider.Offline.Types.{ResourceRecord, Error, panic, check_record, check_timestamp}

-- `type memoryOfflineTable struct`
abbrev pub Table : Type 0 → Type 0
Table V = Map Text (List (ResourceRecord V))

module _ {V : Type 0} where
  -- `newMemoryOfflineTable`
  abbrev pub new_table : Table V
  new_table = []

  insert_by_time : ResourceRecord V → List (ResourceRecord V) → List (ResourceRecord V)
  insert_by_time r [] = r ∷ []
  insert_by_time r (q ∷ qs) =
      let rest = insert_by_time r qs in if ltb q.ts r.ts then q ∷ rest else r ∷ (q ∷ qs)

  -- `sort.Sort` on `ResourceRecords`, whose `Less` compares the times.
  unfoldable pub sort_by_time : List (ResourceRecord V) → List (ResourceRecord V)
  unfolding insert_by_time
  sort_by_time [] = []
  sort_by_time (r ∷ rs) = insert_by_time r (sort_by_time rs)

  -- `records`, in the order in which Go ranges over the map.
  unfoldable pub records : Table V → List (ResourceRecord V)
  records [] = []
  records ((entity, recs) ∷ t) = recs ++ records t

  value_of : Option (ResourceRecord V) → Option V
  value_of none = none
  value_of (some r) = r.value

  -- The loop of `getLastValueBefore`: `before` is the record before the index, if there is one.
  unfoldable pub last_value_loop :
      ℕ → Option (ResourceRecord V) → List (ResourceRecord V) → Result Error (Option V)
  unfolding value_of
  last_value_loop ts before [] = err panic
  last_value_loop ts before (r ∷ []) = if ltb ts r.ts then ok (value_of before) else ok r.value
  last_value_loop ts before (r ∷ q ∷ qs) =
      let later = last_value_loop ts (some r) (q ∷ qs) in
      if ltb ts r.ts then ok (value_of before) else later

  -- `getLastValueBefore`, which sorts the records of the entity where they stand.
  unfoldable pub get_last_value_before : Text → ℕ → Action Error (Table V) (Option V)
  unfolding last_value_loop
  get_last_value_before entity ts t = elim (find t entity) [
    | none ↦ (ok none, t)
    | some recs ↦ (last_value_loop ts none (sort_by_time recs), put t entity (sort_by_time recs))
  ]

  -- The loop of `Write`: the record replaces the one of the same time, or is appended.
  unfoldable pub write_loop : ResourceRecord V → List (ResourceRecord V) → List (ResourceRecord V)
  write_loop rec [] = rec ∷ []
  write_loop rec (r ∷ rs) =
      let rest = write_loop rec rs in if r.ts == rec.ts then rec ∷ rs else r ∷ rest

  write_entity : ResourceRecord V → Option (List (ResourceRecord V)) → List (ResourceRecord V)
  unfolding write_loop
  write_entity rec none = rec ∷ []
  write_entity rec (some recs) = write_loop rec recs

  write_checked : ResourceRecord V → Result Error (Unit {0}) → Action Error (Table V) (Unit {0})
  unfolding write_entity
  write_checked rec (err e) t = (err e, t)
  write_checked rec (ok u) t = (ok tt, put t rec.entity (write_entity rec (find t rec.entity)))

  -- `Write`
  unfoldable pub write : ResourceRecord V → Action Error (Table V) (Unit {0})
  unfolding write_checked
  write rec = write_checked (check_timestamp rec) (check_record (check_timestamp rec))

  latest_loop : ResourceRecord V → List (ResourceRecord V) → ResourceRecord V
  latest_loop latest [] = latest
  latest_loop latest (r ∷ rs) = latest_loop (if ltb latest.ts r.ts then r else latest) rs

  -- `latestRecord`, which indexes its argument at 0.
  unfoldable pub latest_record : List (ResourceRecord V) → Result Error (ResourceRecord V)
  unfolding latest_loop
  latest_record [] = err panic
  latest_record (r ∷ rs) = ok (latest_loop r (r ∷ rs))
