-- ===== src/Provider/Offline/Store/TrainingSets.antt =====
-- provider/offline.go: what `CreateTrainingSet` stores.
use featureform.Common.{
  Pointwise, ℕ, ◌≡◌, refl, sym, ap, ◌∙◌, inl, inr, Option, some, List, [], ◌∷◌, ok, arith,
  Bool-cases, find, put, find-put, All,
}
use featureform.Text.{Text, text_keys}
use featureform.Provider.Offline.Types.{
  ResourceId, ResourceRecord, TrainingSetDef, id_keys, id_eq, id_eq_iff, check_def,
}
use featureform.Provider.Offline.Table.{Table, records, get_last_value_before}
use featureform.Provider.Offline.Store.{
  MemoryOfflineStore, TrainingRow, get_resource_table, feature_value, feature_values, training_rows,
  get_tables, join_features, create_training_set,
}
use featureform.Provider.Offline.Store.Resorted.{
  HasRecords, AsOf, Resorted, some_injective, Resorted-refl, Resorted-trans, HasRecords-Resorted,
  AsOf-Resorted, get_last_value_before-AsOf,
}

module _ {V : Type 0} where
  -- Every table of the first store stands in the second, with the same records.
  pub Follows : MemoryOfflineStore V → MemoryOfflineStore V → Type 0
  Follows s0 s =
      (id : ResourceId) (t : Table V)
      → find s0.tables id ≡ some t
      → (t' : Table V) × (find s.tables id ≡ some t') × Resorted t t'

  -- A table stands under the id and has records for each entity that it knows.
  unfoldable pub IsReady : MemoryOfflineStore V → ResourceId → Type 0
  IsReady s id = (t : Table V) × (find s.tables id ≡ some t) × HasRecords t

  -- The value of a feature, for an entity at a time.
  pub ValueAt : MemoryOfflineStore V → Text → ℕ → ResourceId → Option V → Type 0
  ValueAt s entity ts id v = (t : Table V) → find s.tables id ≡ some t → AsOf t entity ts v

  Follows-refl : (s : MemoryOfflineStore V) → Follows s s
  unfolding Follows
  Follows-refl s id t e = (t, e, Resorted-refl t)

  Follows-put :
      (s0 s : MemoryOfflineStore V) (id : ResourceId) (t t' : Table V)
      → Follows s0 s
      → find s.tables id ≡ some t
      → Resorted t t'
      → Follows s0 (record s { tables = put s.tables id t' })
  unfolding Follows
  Follows-put s0 s id t t' h e a other u f =
      let (u', g, b) = h other u f in
      elim (Bool-cases (id_eq id other)) [
        | inl same ↦
            let m = (id_eq_iff id other).0 same in
            (
              t',
              find-put s.tables id t' other ∙ rw same refl,
              Resorted-trans u u' t' b
                  (rw (some_injective (sym g ∙ ap (find s.tables) (sym m) ∙ e)) a),
            )
        | inr differ ↦ (u', find-put s.tables id t' other ∙ rw differ g, b)
      ]

  feature_value-found :
      (s : MemoryOfflineStore V) (entity : Text) (ts : ℕ) (id : ResourceId) (t : Table V)
      → find s.tables id ≡ some t
      → feature_value entity ts id s ≡ (
        (get_last_value_before entity ts t).0,
        record s { tables = put s.tables id (get_last_value_before entity ts t).1 },
      )
  unfolding feature_value get_resource_table
  feature_value-found s entity ts id t f = rw (f, feature_value, get_resource_table) refl

  feature_value_lem :
      (s0 s : MemoryOfflineStore V) (entity : Text) (ts : ℕ) (id : ResourceId)
      → IsReady s0 id
      → Follows s0 s
      → (v : Option V) × ((feature_value entity ts id s).0 ≡ ok v)
        × ValueAt s0 entity ts id v
        × Follows s0 (feature_value entity ts id s).1
  unfolding IsReady ValueAt Follows
  feature_value_lem s0 s entity ts id (t, e, h) follows =
      let (t', f, a) = follows id t e in
      let (v, found, as_of, b) =
        get_last_value_before-AsOf t' entity ts (HasRecords-Resorted t t' h a) in
      (
        v,
        rw (feature_value-found s entity ts id t' f) found,
        (λ u g. AsOf-Resorted u t' entity ts v (rw (some_injective (sym g ∙ e)) a) as_of),
        rw (feature_value-found s entity ts id t' f)
            (Follows-put s0 s id t' (get_last_value_before entity ts t').1 follows f b),
      )

  feature_values_lem :
      (s0 s : MemoryOfflineStore V) (entity : Text) (ts : ℕ) (ids : List ResourceId)
      → All (IsReady s0) ids
      → Follows s0 s
      → (vs : List (Option V)) × ((feature_values entity ts ids s).0 ≡ ok vs)
        × Pointwise (ValueAt s0 entity ts) ids vs
        × Follows s0 (feature_values entity ts ids s).1
  unfolding feature_values
  feature_values_lem s0 s entity ts [] h follows = ([], refl, tt, follows)
  feature_values_lem s0 s entity ts (id ∷ ids) h follows =
      let (v, e, at_time, follows') = feature_value_lem s0 s entity ts id h.0 follows in
      let s' = (feature_value entity ts id s).1 in
      let (vs, f, all, follows'') = feature_values_lem s0 s' entity ts ids h.1 follows' in
      (v ∷ vs, rw e (rw f refl), (at_time, all), rw e (rw f follows''))

  -- The row of a record of the label: its value, and that of each feature for its entity at its time.
  pub IsJoined : MemoryOfflineStore V → List ResourceId → ResourceRecord V → TrainingRow V → Type 0
  IsJoined s ids rec row =
      (row.label ≡ rec.value) × Pointwise (ValueAt s rec.entity rec.ts) ids row.features

  training_rows_lem :
      (s0 s : MemoryOfflineStore V) (ids : List ResourceId) (recs : List (ResourceRecord V))
      → All (IsReady s0) ids
      → Follows s0 s
      → (rows : List (TrainingRow V)) × ((training_rows ids recs s).0 ≡ ok rows)
        × Pointwise (IsJoined s0 ids) recs rows
        × Follows s0 (training_rows ids recs s).1
  unfolding training_rows IsJoined
  training_rows_lem s0 s ids [] h follows = ([], refl, tt, follows)
  training_rows_lem s0 s ids (rec ∷ recs) h follows =
      let (vs, e, joined, follows') = feature_values_lem s0 s rec.entity rec.ts ids h follows in
      let s' = (feature_values rec.entity rec.ts ids s).1 in
      let (rows, f, all, follows'') = training_rows_lem s0 s' ids recs h follows' in
      (
        record { features = vs; label = rec.value } ∷ rows,
        rw e (rw f refl),
        ((refl, joined), all),
        rw e (rw f follows''),
      )

  get_tables-ready :
      (s : MemoryOfflineStore V) (ids : List ResourceId)
      → All (IsReady s) ids
      → get_tables ids s ≡ ok tt
  unfolding get_tables get_resource_table IsReady
  get_tables-ready s [] h = refl
  get_tables-ready s (id ∷ ids) ((t, e, there), h) =
      rw (e, get_resource_table) (get_tables-ready s ids h)

  join_features-found :
      (order : List (ResourceRecord V) → List (ResourceRecord V)) (def : TrainingSetDef)
      (s : MemoryOfflineStore V) (t : Table V) (rows : List (TrainingRow V))
      → find s.tables def.label ≡ some t
      → All (IsReady s) def.features
      → (training_rows def.features (order (records t)) s).0 ≡ ok rows
      → let s' = (training_rows def.features (order (records t)) s).1 in
        join_features order def s
        ≡ (ok tt, record s' { training_sets = put s'.training_sets def.id rows })
  unfolding join_features get_resource_table
  join_features-found order def s t rows e h f =
      rw (e, join_features, get_resource_table) (rw (get_tables-ready s def.features h) (rw f refl))

  create_training_set-checked :
      (order : List (ResourceRecord V) → List (ResourceRecord V)) (def checked : TrainingSetDef)
      (s : MemoryOfflineStore V)
      → check_def def ≡ ok checked
      → create_training_set order def s ≡ join_features order checked s
  unfolding create_training_set
  create_training_set-checked order def checked s c = rw (c, create_training_set) refl

  -- For a definition that passes its check, a label with a table and features whose tables have
  -- records for the entities that they know, `CreateTrainingSet` succeeds and stores, under the id
  -- that the check leaves, one row for each record of the label, in order: the record's value, and
  -- for each feature the value that its table had, before the call, for the entity at the record's
  -- time. The tables keep their records.
  pub create_training_set-IsJoined :
      (order : List (ResourceRecord V) → List (ResourceRecord V)) (def checked : TrainingSetDef)
      (s : MemoryOfflineStore V) (t : Table V)
      → check_def def ≡ ok checked
      → find s.tables checked.label ≡ some t
      → All (IsReady s) checked.features
      → let after = (create_training_set order def s).1 in
        ((create_training_set order def s).0 ≡ ok tt)
        × ((rows : List (TrainingRow V)) × (find after.training_sets checked.id ≡ some rows)
            × Pointwise (IsJoined s checked.features) (order (records t)) rows)
        × Follows s after
  unfolding Follows
  create_training_set-IsJoined order def checked s t c e h =
      let (rows, f, joined, follows) =
        training_rows_lem s s checked.features (order (records t)) h (Follows-refl s) in
      rw (create_training_set-checked order def checked s c) (
        rw (join_features-found order checked s t rows e h f) (
          refl,
          (
            rows,
            ground (
              arith,
              find-put (training_rows checked.features (order (records t)) s).1.training_sets
                  checked.id rows checked.id,
              id_eq_iff checked.id checked.id,
            ),
            joined,
          ),
          follows,
        ))
