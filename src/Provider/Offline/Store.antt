-- ===== src/Provider/Offline/Store.antt =====
-- provider/offline.go: `memoryOfflineStore`. Its operations on tables reach them by pointer, so they
-- act on the store; `order` is the order in which Go ranges over a map, and `uuid` what
-- `uuid.NewString` returned.
pub mod Resorted
pub mod TrainingSets
pub mod Materializations
use featureform.Common.{
  ℕ, zero, suc, ◌≡◌, Bool, true, false, not, Option, none, some, List, [], ◌∷◌, if◌then◌else◌, ◌==◌,
  ltb, Map, find, put, remove, Result, ok, err, ◌>>=◌, Action, ◌>=>◌, continue, ◌>>◌,
}
use featureform.Text.{Text, text_keys, text_eq}
use featureform.Provider.Offline.Types.{
  ResourceId, id_keys, ResourceRecord, TrainingSetDef, Error, only_features, table_already_exists,
  table_not_found, materialization_not_found, training_set_not_found, check_id, check_def, feature,
  label, training_set, type_eq,
}
use featureform.Provider.Offline.Table.{
  Table, new_table, records, get_last_value_before, latest_record,
}
use featureform.Provider.Offline.Iterator.{Iterator, new_iterator, segment}

-- `type trainingRow struct`
pub record TrainingRow (V : Type 0) : Type 0 where
  pub features : List (Option V)
  pub label : Option V

-- `type memoryOfflineStore struct`, the provider's name and configuration left out.
pub record MemoryOfflineStore (V : Type 0) : Type 0 where
  pub tables : Map ResourceId (Table V)
  pub materializations : Map Text (List (ResourceRecord V))
  pub training_sets : Map ResourceId (List (TrainingRow V))

-- `<` on strings, by their bytes.
unfoldable pub text_lt : Text → Text → Bool
text_lt s [] = false
text_lt [] (d ∷ t) = true
text_lt (c ∷ s) (d ∷ t) = let rest = text_lt s t in if c == d then rest else ltb c d

module _ {V : Type 0} where
  -- `NewMemoryOfflineStore`
  abbrev pub new_store : MemoryOfflineStore V
  new_store = record { tables = []; materializations = []; training_sets = [] }

  -- `CreateResourceTable`: the id of the table is the one that its check leaves.
  unfoldable pub create_resource_table : ResourceId → Action Error (MemoryOfflineStore V) ResourceId
  create_resource_table id s = elim (check_id feature (label ∷ []) id) [
    | err e ↦ (err e, s)
    | ok id' ↦ elim (find s.tables id') [
      | some t ↦ (err (table_already_exists id'), s)
      | none ↦ (ok id', record s { tables = put s.tables id' new_table })
    ]
  ]

  -- `getMemoryResourceTable`
  unfoldable pub get_resource_table : ResourceId → MemoryOfflineStore V → Result Error (Table V)
  get_resource_table id s = elim (find s.tables id) [
    | none ↦ err (table_not_found id)
    | some t ↦ ok t
  ]

  -- The loop of `CreateMaterialization`.
  latest_records : Table V → Result Error (List (ResourceRecord V))
  latest_records [] = ok []
  latest_records ((entity, recs) ∷ t) = do
    r ← latest_record recs
    rs ← latest_records t
    ok (r ∷ rs)

  insert_by_entity : ResourceRecord V → List (ResourceRecord V) → List (ResourceRecord V)
  insert_by_entity r [] = r ∷ []
  insert_by_entity r (q ∷ qs) =
      let rest = insert_by_entity r qs in
      if text_lt q.entity r.entity then q ∷ rest else r ∷ (q ∷ qs)

  -- `sort.Sort` on `materializedRecords`, whose `Less` compares the entities.
  unfoldable pub sort_by_entity : List (ResourceRecord V) → List (ResourceRecord V)
  unfolding insert_by_entity
  sort_by_entity [] = []
  sort_by_entity (r ∷ rs) = insert_by_entity r (sort_by_entity rs)

  -- `CreateMaterialization`, which `UpdateMaterialization` calls.
  unfoldable pub create_materialization :
      Text → ResourceId → Action Error (MemoryOfflineStore V) (List (ResourceRecord V))
  unfolding latest_records sort_by_entity get_resource_table
  create_materialization uuid id s =
      if type_eq id.type feature
      then elim (do t ← get_resource_table id s; latest_records t) [
        | err e ↦ (err e, s)
        | ok recs ↦ (
          ok (sort_by_entity recs),
          record s { materializations = put s.materializations uuid (sort_by_entity recs) },
        )
      ]
      else (err only_features, s)

  -- `GetMaterialization`
  unfoldable pub get_materialization :
      Text → MemoryOfflineStore V → Result Error (List (ResourceRecord V))
  get_materialization id s = elim (find s.materializations id) [
    | none ↦ err (materialization_not_found id)
    | some recs ↦ ok recs
  ]

  -- `DeleteMaterialization`
  unfoldable pub delete_materialization : Text → Action Error (MemoryOfflineStore V) (Unit {0})
  delete_materialization id s = elim (find s.materializations id) [
    | none ↦ (err (materialization_not_found id), s)
    | some recs ↦ (ok tt, record s { materializations = remove s.materializations id })
  ]

  -- `IterateSegment`
  unfoldable pub iterate_segment :
      List (ResourceRecord V) → ℕ → ℕ → Result Error (Iterator (ResourceRecord V))
  iterate_segment recs start end = do part ← segment recs start end; ok (new_iterator part)

  -- The call of `getLastValueBefore` on the table of a feature.
  unfoldable pub feature_value :
      Text → ℕ → ResourceId → Action Error (MemoryOfflineStore V) (Option V)
  unfolding get_resource_table
  feature_value entity ts id s = elim (get_resource_table id s) [
    | err e ↦ (err e, s)
    | ok t ↦
        let (v, t') = get_last_value_before entity ts t in
        (v, record s { tables = put s.tables id t' })
  ]

  -- The loop of `CreateTrainingSet` over the features, for one record of the label.
  unfoldable pub feature_values :
      Text → ℕ → List ResourceId → Action Error (MemoryOfflineStore V) (List (Option V))
  unfolding feature_value
  feature_values entity ts [] = λ s. (ok [], s)
  feature_values entity ts (id ∷ ids) =
      feature_value entity ts id
      >=> (λ v. feature_values entity ts ids >=> (λ vs s. (ok (v ∷ vs), s)))

  -- The loop of `CreateTrainingSet` over the records of the label.
  unfoldable pub training_rows :
      List ResourceId
      → List (ResourceRecord V)
      → Action Error (MemoryOfflineStore V) (List (TrainingRow V))
  unfolding feature_values
  training_rows ids [] = λ s. (ok [], s)
  training_rows ids (rec ∷ recs) = feature_values rec.entity rec.ts ids >=> (λ vs.
      training_rows ids recs
      >=> (λ rows s. (ok (record { features = vs; label = rec.value } ∷ rows), s)))

  get_tables : List ResourceId → MemoryOfflineStore V → Result Error (Unit {0})
  get_tables [] s = ok tt
  get_tables (id ∷ ids) s = do t ← get_resource_table id s; get_tables ids s

  module _ (order : List (ResourceRecord V) → List (ResourceRecord V)) where
    -- What `CreateTrainingSet` does with a definition that passed its check.
    unfoldable pub join_features : TrainingSetDef → Action Error (MemoryOfflineStore V) (Unit {0})
    unfolding get_tables get_resource_table training_rows
    join_features def s =
        elim (do t ← get_resource_table def.label s; get_tables def.features s; ok t) [
          | err e ↦ (err e, s)
          | ok t ↦
              (training_rows def.features (order (records t)) >=> (λ rows s'.
                  (ok tt, record s' { training_sets = put s'.training_sets def.id rows })))
                s
        ]

    -- `CreateTrainingSet`, which `UpdateTrainingSet` calls.
    unfoldable pub create_training_set :
        TrainingSetDef → Action Error (MemoryOfflineStore V) (Unit {0})
    unfolding join_features
    create_training_set def s = elim (check_def def) [
      | err e ↦ (err e, s)
      | ok def' ↦ join_features def' s
    ]

  -- `GetTrainingSet`
  unfoldable pub get_training_set :
      ResourceId → MemoryOfflineStore V → Result Error (Iterator (TrainingRow V))
  get_training_set id s = do
    id' ← check_id training_set [] id
    elim (find s.training_sets id') [
      | none ↦ err (training_set_not_found id')
      | some rows ↦ ok (new_iterator rows)
    ]
