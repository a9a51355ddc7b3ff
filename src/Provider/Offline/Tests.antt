-- ===== src/Provider/Offline/Tests.antt =====
-- A store with one label and one feature, and the theorems applied to it.
use featureform.Common.{
  ◌<◌, ◌+◌, ◌-◌, get_elem?, length, Pointwise, ℕ, ◌≡◌, ◌≢◌, ◌≤◌, refl, ◌↔◌, ◌⊎◌, Option, none, some,
  List, [], ◌∷◌, ok, err, arith, In, find,
}
use featureform.Text.{Text, bytes, text_keys, text_eq}
use featureform.Provider.Offline.Types.{
  ResourceId, ResourceRecord, TrainingSetDef, id_keys, no_type, feature, label, training_set,
  check_def, check_id, check_timestamp, missing_entity, panic,
}
use featureform.Provider.Offline.Table.{
  Table, new_table, records, get_last_value_before, write, latest_record,
}
use featureform.Provider.Offline.Table.Writes.{IsValid, Holds, new_table-IsValid, write-IsValid}
use featureform.Provider.Offline.Table.Latest.{latest_record_lem}
use featureform.Provider.Offline.Store.Resorted.{HasRecords-entries}
use featureform.Provider.Offline.Table.PointInTime.{IsAsOf, get_last_value_before-IsAsOf}
use featureform.Provider.Offline.Store.{
  MemoryOfflineStore, TrainingRow, create_training_set, create_materialization, get_materialization,
}
use featureform.Provider.Offline.Store.TrainingSets.{
  Follows, IsReady, IsJoined, create_training_set-IsJoined,
}
use featureform.Provider.Offline.Store.Materializations.{
  IsOrdered, IsLatestOf, get_materialization-create_materialization,
}
use featureform.Provider.Offline.Iterator.{drain, new_iterator, drain-new_iterator, segment}
use featureform.Provider.Offline.Iterator.Segments.{segment-get_elem}

abbrev spent : ℕ → ℕ → ResourceRecord ℕ
spent amount ts = record { entity = bytes "ana"; value = some amount; ts = ts }

abbrev fraud : ℕ → ResourceRecord ℕ
fraud ts = record { entity = bytes "ana"; value = some 1; ts = ts }

abbrev spend_id : ResourceId
spend_id = record { name = bytes "spend"; variant = bytes "v1"; type = feature }

abbrev fraud_id : ResourceId
fraud_id = record { name = bytes "fraud"; variant = bytes "v1"; type = label }

abbrev fraud_set : ResourceId
fraud_set = record { name = bytes "set"; variant = bytes "v1"; type = training_set }

abbrev spend_table : Table ℕ
spend_table = (bytes "ana", spent 30 9 ∷ spent 20 5 ∷ []) ∷ []

abbrev fraud_table : Table ℕ
fraud_table = (bytes "ana", fraud 7 ∷ fraud 3 ∷ []) ∷ []

abbrev a_store : MemoryOfflineStore ℕ
a_store = record {
  tables = (spend_id, spend_table) ∷ (fraud_id, fraud_table) ∷ [];
  materializations = [];
  training_sets = [];
}

-- The types of its ids are left to the check.
abbrev a_def : TrainingSetDef
a_def = record {
  id = record fraud_set { type = no_type };
  label = record fraud_id { type = no_type };
  features = record spend_id { type = no_type } ∷ [];
}

abbrev a_checked : TrainingSetDef
a_checked = record { id = fraud_set; label = fraud_id; features = spend_id ∷ [] }

abbrev as_stored : List (ResourceRecord ℕ) → List (ResourceRecord ℕ)
as_stored recs = recs

a_def-passes : check_def a_def ≡ ok a_checked
unfolding check_def check_id text_eq
a_def-passes = refl

fraud_table-stored : find a_store.tables fraud_id ≡ some fraud_table
unfolding find text_eq
fraud_table-stored = refl

spend_table-stored : find a_store.tables spend_id ≡ some spend_table
unfolding find text_eq
spend_table-stored = refl

spend_id-IsReady : IsReady a_store spend_id
unfolding IsReady
spend_id-IsReady =
    (spend_table, spend_table-stored, HasRecords-entries spend_table ((λ e. ground (arith, e)), tt))

spend_table-has :
    (recs : List (ResourceRecord ℕ)) → find spend_table (bytes "ana") ≡ some recs → recs ≢ []
unfolding find text_eq
spend_table-has recs e empty = ground (arith, e, empty)

create_training_set_example :
    let after = (create_training_set as_stored a_def a_store).1 in
    ((create_training_set as_stored a_def a_store).0 ≡ ok tt)
    × ((rows : List (TrainingRow ℕ)) × (find after.training_sets fraud_set ≡ some rows)
        × Pointwise (IsJoined a_store (spend_id ∷ [])) (records fraud_table) rows)
    × Follows a_store after
create_training_set_example =
    create_training_set-IsJoined as_stored a_def a_checked a_store fraud_table a_def-passes
      fraud_table-stored (spend_id-IsReady, tt)

get_last_value_before_example :
    let after = (get_last_value_before (bytes "ana") 7 spend_table).1 in
    ((find spend_table (bytes "ana") ≡ none)
      × (get_last_value_before (bytes "ana") 7 spend_table ≡ (ok none, spend_table)))
    ⊎ ((recs : List (ResourceRecord ℕ)) × (v : Option ℕ) × (find spend_table (bytes "ana")
          ≡ some recs)
        × ((get_last_value_before (bytes "ana") 7 spend_table).0 ≡ ok v)
        × IsAsOf recs 7 v
        × ((sorted : List (ResourceRecord ℕ)) × (find after (bytes "ana") ≡ some sorted)
            × ((q : ResourceRecord ℕ) → In q sorted ↔ In q recs))
        × ((other : Text) → other ≢ bytes "ana" → find after other ≡ find spend_table other))
get_last_value_before_example =
    get_last_value_before-IsAsOf (bytes "ana") 7 spend_table (λ recs e. spend_table-has recs e)

write_example :
    let rec' = check_timestamp (spent 20 5) in
    let after = (write (spent 20 5) new_table).1 in
    (((spent 20 5).entity ≡ []) × (write (spent 20 5) new_table ≡ (err missing_entity, new_table)))
    ⊎ (((spent 20 5).entity ≢ [])
        × ((write (spent 20 5) new_table).0 ≡ ok tt)
        × IsValid after
        × ((q : ResourceRecord ℕ)
            → Holds after q ↔ (
                (rec' ≡ q)
                ⊎ Holds new_table q × ((q.entity ≡ (spent 20 5).entity → q.ts ≢ rec'.ts)))))
write_example = write-IsValid (spent 20 5) new_table (new_table-IsValid ℕ)

abbrev two : List ℕ
two = 1 ∷ 2 ∷ []

drain_example : drain 3 (new_iterator two) ≡ ok two
drain_example = drain-new_iterator two

latest_record_example :
    (latest_record (spent 30 9 ∷ spent 20 5 ∷ []) ≡ err panic × (spent 30 9 ∷ spent 20 5 ∷ [] ≡ []))
    ⊎ ((r : ResourceRecord ℕ) × (latest_record (spent 30 9 ∷ spent 20 5 ∷ []) ≡ ok r)
        × In r (spent 30 9 ∷ spent 20 5 ∷ [])
        × ((q : ResourceRecord ℕ) → In q (spent 30 9 ∷ spent 20 5 ∷ []) → q.ts ≤ r.ts))
latest_record_example = latest_record_lem (spent 30 9 ∷ spent 20 5 ∷ [])

get_materialization_example :
    let after = (create_materialization (bytes "a1") spend_id a_store).1 in
    (recs : List (ResourceRecord ℕ)) × (rs : List (ResourceRecord ℕ)) × ((create_materialization
        (bytes "a1")
        spend_id
        a_store).0
      ≡ ok recs)
    × (get_materialization (bytes "a1") after ≡ ok recs)
    × IsOrdered recs
    × Pointwise (λ e r. IsLatestOf e.1 r) spend_table rs
    × ((q : ResourceRecord ℕ) → In q recs ↔ In q rs)
    × (length recs ≡ length spend_table)
    × (after.tables ≡ a_store.tables)
get_materialization_example =
    get_materialization-create_materialization (bytes "a1") spend_id a_store spend_table refl
      spend_table-stored ((λ e. ground (arith, e)), tt)

segment_example :
    ((1 ≤ 2)
      × (2 ≤ length two)
      × ((ys : List ℕ) × (segment two 1 2 ≡ ok ys)
          × (length ys ≡ 2 - 1)
          × ((i : ℕ) → i < 2 - 1 → get_elem? ys i ≡ get_elem? two (1 + i))))
    ⊎ ((2 < 1) ⊎ (length two < 2)) × (segment two 1 2 ≡ err panic)
segment_example = segment-get_elem two 1 2
