-- ===== src/Coordinator/Services.antt =====
-- coordinator/coordinator.go: what the coordinator calls through interfaces, `JobSpawner`, `Runner`,
-- `CompletionWatcher`, `CronRunner` and `OfflineStore`, and through the clock and the etcd client.
-- `W` is the state of all of it, the metadata included.
use featureform.Common.{Bool, Option, Result, Action}
use featureform.Text.{Text}
use featureform.Metadata.Types.{ResourceId, ResourceType, Status}
use featureform.Metadata.Types
use featureform.Metadata.Messages.{Timestamp}
use featureform.Provider.Offline.Types as Offline
use featureform.Provider.Offline.Types.{TrainingSetDef}

-- The errors, with what their texts quote that is not in scope anyway, and the panic of a template.
pub data Error : Type 0 where
  metadata : Types.Error → Error
  service : Text → Error
  no_key_set template_panic source_not_ready source_failed waited_too_long still_waiting : Error
  unsafe_table_name no_source_name source_not_implemented not_schedulable : Error
  training_set_exists : Error
  already_set : Status → Error
  not_owner already_deleted invalid_job_type malformed_job : Error
  no_such_job : Text → Error
  job_failed : ResourceType → Error → Option Types.Error → Error

-- `provider.ResourceSchema`
pub record ResourceSchema : Type 0 where
  pub entity : Text
  pub value : Text
  pub ts : Text
  pub source_table : Text

-- The configurations of the jobs, `CreateTransformationConfig`, `MaterializedRunnerConfig` of a local
-- run and `TrainingSetRunnerConfig`, each with the type and the configuration of its providers.
pub data JobConfig : Type 0 where
  transformation_config :
      (offline_type offline_config : Text) (target : Offline.ResourceId) (query : Text)
      (is_update : Bool)
      → JobConfig
  materialize_config :
      (online_type online_config offline_type offline_config : Text) (id : Offline.ResourceId)
      (value_type : Text) (is_update : Bool)
      → JobConfig
  training_set_config :
      (offline_type offline_config : Text) (def : TrainingSetDef) (is_update : Bool) → JobConfig

-- `H` are offline stores and `R` are runners.
pub record Services (W H R : Type 0) : Type 0 where
  -- `provider.Get` and `AsOfflineStore`
  pub offline_store : Text → Text → W → Result Error H
  pub register_primary : H → Offline.ResourceId → Text → Action Error W (Unit {0})
  pub register_resource : H → Offline.ResourceId → ResourceSchema → Action Error W (Unit {0})
  -- Whether `GetTrainingSet` returns one.
  pub has_training_set : H → Offline.ResourceId → W → Bool
  -- `JobSpawner.GetJobRunner`
  pub get_job_runner : JobConfig → ResourceId → Action Error W R
  -- `Runner.Run`, and `Wait` on the watcher that it returns.
  pub run_to_completion : R → Action Error W (Unit {0})
  -- `ScheduleJob`, which only a `CronRunner` has.
  pub is_cron_runner : R → Bool
  pub schedule_job : R → Text → Action Error W (Unit {0})
  -- The clock, and what happens elsewhere between two polls of the coordinator, in a second where
  -- it sleeps.
  pub now : W → Timestamp
  pub sleep : W → W
  pub elsewhere : W → W
