-- ===== src/Coordinator/Registrations.antt =====
-- coordinator/coordinator.go: the four functions that run a job. `fuel` bounds the polls of the loops
-- that wait for sources.
pub mod Ready
use featureform.Common.{
  ℕ, Bool, true, false, not, Option, none, some, List, [], ◌∷◌, Result, ok, err, ◌>>=◌, Action,
  ◌>=>◌, continue, fail_if, if◌then◌else◌,
}
use featureform.Text.{Text, text_eq}
use featureform.Metadata.Types.{ResourceId, NameVariant, Status, pending, ready}
use featureform.Metadata.Types
use featureform.Metadata.Messages.{
  SourceVariant, LabelVariant, FeatureVariant, TrainingSetVariant, Provider, Columns,
}
use featureform.Metadata.Lookup.{ResourceLookup}
use featureform.Metadata.Client.{
  status_in, name_variant_in, columns_in, is_sql_transformation, sql_transformation_query,
  sql_transformation_sources, is_primary_data_sql_table, primary_data_sql_table_name,
  get_source_variant, get_feature_variant, get_label_variant, get_training_set_variant,
  get_provider,
}
use featureform.Metadata.Client
use featureform.Provider.Offline.Types.{TrainingSetDef}
use featureform.Provider.Offline.Types as Offline
use featureform.Coordinator.Services.{
  Error, metadata, already_set, no_source_name, source_not_implemented, not_schedulable,
  training_set_exists, ResourceSchema, JobConfig, transformation_config, materialize_config,
  training_set_config, Services,
}
use featureform.Coordinator.Templates.{template_replace}
use featureform.Coordinator.Sources.{
  from_metadata, is_ready, get_transformation_name, await_pending_source, await_all,
  map_name_variants_to_tables,
}

-- The id of a resource in an offline store.
abbrev pub offline_id : ResourceId → Offline.OfflineResourceType → Offline.ResourceId
offline_id id t = record { name = id.name; variant = id.variant; type = t }

-- `metadata.NameVariant{resID.Name, resID.Variant}`
abbrev pub variant_of : ResourceId → NameVariant
variant_of id = record { name = id.name; variant = id.variant }

-- `provider.ResourceSchema`, from the columns of a variant.
abbrev pub schema_of : Columns → Text → ResourceSchema
schema_of columns table = record {
  entity = columns.entity;
  value = columns.value;
  ts = columns.ts;
  source_table = table;
}

-- A statement that reads.
abbrev pub read : {W A : Type 0} → (W → Result Error A) → Action Error W A
read f w = (f w, w)

-- One statement of a job after another: an error ends the job.
infixl 5 ◌>->◌
unfoldable pub ◌>->◌ :
    {W A B : Type 0} → Action Error W A → (A → Action Error W B) → Action Error W B
m >-> f = m >=> f

module _ {W H R : Type 0} (L : ResourceLookup W) (S : Services W H R) where
  -- `c.Metadata.SetStatus`
  unfoldable pub set_status : ResourceId → Status → Text → Action Error W (Unit {0})
  set_status id status message w =
      let (done, w') = Client.set_status L (S.now w) id status message w in (from_metadata done, w')

  -- A runner for the configuration, run until its watcher is done.
  unfoldable pub run_job : JobConfig → ResourceId → Action Error W (Unit {0})
  run_job config id = S.get_job_runner config id >-> λ runner. S.run_to_completion runner

  -- The part of a job under `if schedule != ""`, the same in three of the functions.
  unfoldable pub schedule_update : JobConfig → ResourceId → Text → Action Error W (Unit {0})
  unfolding set_status
  schedule_update config id schedule =
      if text_eq schedule []
      then read (λ w. ok tt)
      else (S.get_job_runner config id
          >-> (λ runner.
              read (λ w. fail_if (not (S.is_cron_runner runner)) not_schedulable) >-> λ u.
              S.schedule_job runner schedule)
          >-> λ u. set_status id ready [])

  -- `runSQLTransformationJob`
  unfoldable pub run_sql_transformation_job :
      ℕ → (Text → Text) → SourceVariant → ResourceId → Text → Provider → Action Error W (Unit {0})
  unfolding run_job set_status schedule_update
  run_sql_transformation_job fuel sanitize source id schedule provider =
      let sources = sql_transformation_sources source in
      let config = λ (query : Text). λ (is_update : Bool).
        transformation_config provider.type provider.serialized_config
          (offline_id id Offline.transformation) query is_update in
      await_all L S fuel sources >-> λ u.
      read (λ w. map_name_variants_to_tables L S sources w >>= λ tables.
      template_replace sanitize tables (sql_transformation_query source))
      >-> λ query. run_job (config query false) id >-> λ u.
          set_status id ready [] >-> λ u. schedule_update (config query true) id schedule

  -- `runPrimaryTableJob`
  unfoldable pub run_primary_table_job : SourceVariant → ResourceId → H → Action Error W (Unit {0})
  unfolding set_status
  run_primary_table_job source id store =
      let name = primary_data_sql_table_name source in
      read (λ w. fail_if (text_eq name []) no_source_name) >-> λ u.
      S.register_primary store (offline_id id Offline.no_type) name >-> λ u. set_status id ready []

  -- `runRegisterSourceJob`
  unfoldable pub run_register_source_job :
      ℕ → (Text → Text) → ResourceId → Text → Action Error W (Unit {0})
  unfolding run_sql_transformation_job run_primary_table_job
  run_register_source_job fuel sanitize id schedule =
      read (λ w. from_metadata (get_source_variant L (variant_of id) w)) >-> λ source.
      read (λ w. from_metadata (get_provider L source.provider w)) >-> λ provider.
      read (S.offline_store provider.type provider.serialized_config) >-> λ store.
      if is_sql_transformation source
      then run_sql_transformation_job fuel sanitize source id schedule provider
      else if is_primary_data_sql_table source
      then run_primary_table_job source id store
      else read (λ w. err source_not_implemented)

  -- `runLabelRegisterJob`. The columns are first read for the log, before the wait.
  unfoldable pub run_label_register_job : ℕ → ℕ → ResourceId → Text → Action Error W (Unit {0})
  unfolding set_status
  run_label_register_job fuel timeout id schedule =
      read (λ w. from_metadata (get_label_variant L (variant_of id) w)) >-> λ label.
      read (λ w. fail_if (is_ready (status_in label.status)) (already_set ready)) >-> λ u.
      set_status id pending [] >-> λ u.
      read (λ w. from_metadata (name_variant_in label.source)) >-> λ nv.
      read (λ w. from_metadata (columns_in label.columns)) >-> λ columns.
      await_pending_source L S fuel timeout nv >-> λ source.
      read (λ w. from_metadata (get_provider L source.provider w)) >-> λ provider.
      read (S.offline_store provider.type provider.serialized_config) >-> λ store.
      read (λ w. get_transformation_name nv.name nv.variant) >-> λ table.
      S.register_resource store (offline_id id Offline.label) (schema_of columns table) >-> λ u.
      set_status id ready []

  -- `runFeatureMaterializeJob`, with the columns read in the same place.
  unfoldable pub run_feature_materialize_job : ℕ → ℕ → ResourceId → Text → Action Error W (Unit {0})
  unfolding set_status run_job schedule_update
  run_feature_materialize_job fuel timeout id schedule =
      read (λ w. from_metadata (get_feature_variant L (variant_of id) w)) >-> λ feature.
      read (λ w. fail_if (is_ready (status_in feature.status)) (already_set ready)) >-> λ u.
      set_status id pending [] >-> λ u.
      read (λ w. from_metadata (name_variant_in feature.source)) >-> λ nv.
      read (λ w. from_metadata (columns_in feature.columns)) >-> λ columns.
      await_pending_source L S fuel timeout nv >-> λ source.
      read (λ w. from_metadata (get_provider L source.provider w)) >-> λ provider.
      read (S.offline_store provider.type provider.serialized_config) >-> λ store.
      read (λ w. from_metadata (get_provider L feature.provider w)) >-> λ online.
      let config = λ (is_update : Bool).
        materialize_config online.type online.serialized_config provider.type
          provider.serialized_config (offline_id id Offline.feature) feature.type is_update in
      read (λ w. get_transformation_name nv.name nv.variant) >-> λ table.
      S.register_resource store (offline_id id Offline.feature) (schema_of columns table) >-> λ u.
      run_job (config false) id >-> λ u.
      set_status id ready [] >-> λ u. schedule_update (config true) id schedule

  -- The loop of `runTrainingSetJob` over the features: each has a source that is ready.
  unfoldable pub await_features : ℕ → ℕ → List NameVariant → Action Error W (Unit {0})
  await_features fuel timeout [] = read (λ w. ok tt)
  await_features fuel timeout (f ∷ fs) =
      let rest = await_features fuel timeout fs in
      read (λ w. from_metadata (get_feature_variant L f w)) >-> λ feature.
      read (λ w. from_metadata (name_variant_in feature.source)) >-> λ nv.
      await_pending_source L S fuel timeout nv >-> λ source. rest

  -- `featureList`
  abbrev feature_ids : List NameVariant → List Offline.ResourceId
  feature_ids [] = []
  feature_ids (f ∷ fs) =
      record { name = f.name; variant = f.variant; type = Offline.feature } ∷ feature_ids fs

  -- `runTrainingSetJob`
  unfoldable pub run_training_set_job : ℕ → ℕ → ResourceId → Text → Action Error W (Unit {0})
  unfolding set_status run_job schedule_update await_features
  run_training_set_job fuel timeout id schedule =
      read (λ w. from_metadata (get_training_set_variant L (variant_of id) w)) >-> λ ts.
      read (λ w. fail_if (is_ready (status_in ts.status)) (already_set ready)) >-> λ u.
      set_status id pending [] >-> λ u.
      read (λ w. from_metadata (get_provider L ts.provider w)) >-> λ provider.
      read (S.offline_store provider.type provider.serialized_config) >-> λ store.
      read (λ w.
        fail_if (S.has_training_set store (offline_id id Offline.training_set) w)
          training_set_exists)
      >-> λ u. await_features fuel timeout ts.features >-> λ u.
          read (λ w. from_metadata (name_variant_in ts.label)) >-> λ nv.
          read (λ w. from_metadata (get_label_variant L nv w)) >-> λ label.
          read (λ w. from_metadata (name_variant_in label.source)) >-> λ source.
          await_pending_source L S fuel timeout source >-> λ ready_source.
          let config = λ (is_update : Bool).
            training_set_config provider.type provider.serialized_config
              (record {
                id = offline_id id Offline.training_set;
                label = record { name = label.name; variant = label.variant; type = Offline.label };
                features = feature_ids ts.features;
              })
              is_update in
          run_job (config false) id >-> λ u.
          set_status id ready [] >-> λ u. schedule_update (config true) id schedule
