-- ===== src/Runner/Materialize.antt =====
-- runner/materialize.go: `MaterializeRunner`, over the offline store and the online store in memory.
-- `uuid` names the new materialization. The registry of factories is a parameter of the run, and so
-- are `serialize`, which writes a configuration as JSON, and `submit`, which makes a Kubernetes client
-- and has it create a job.
pub mod Unindexed
pub mod Stranded
use featureform.Common.{
  ℕ, zero, suc, ◌%◌, ◌^◌, Bool, true, false, List, [], ◌∷◌, length, Result, ok, err, ◌>>=◌, Action,
  Map,
}
use featureform.Text.{Text, bytes, text_keys}
use featureform.Provider.Offline.Types.{ResourceId, ResourceRecord}
use featureform.Provider.Offline.Types
use featureform.Provider.Offline.Store.{MemoryOfflineStore, create_materialization}
use featureform.Provider.Online
use featureform.Provider.Online.{TableKey, LocalOnlineStore}
use featureform.Runner.Chunks.{plan}
use featureform.Runner.Copy.{
  Error, offline, online, table_exists, no_cloud, job_failed, MaterializedChunkRunner,
  MaterializedChunkRunnerConfig, table_key,
}
use featureform.Runner.Library.{FactoryMap, create}
use featureform.Runner.Kubernetes.{JobSpec, new_job_spec}

-- `type JobCloud string`: the two that the runner knows, and any other text.
pub data JobCloud : Type 0 where
  kubernetes local other_cloud : JobCloud

-- `type MaterializeRunner struct`, the stores and the type of the values left out.
pub record MaterializeRunner : Type 0 where
  pub id : ResourceId
  pub is_update : Bool
  pub cloud : JobCloud

pub record Stores (V : Type 0) : Type 0 where
  pub offline_store : MemoryOfflineStore V
  pub online_store : LocalOnlineStore V

-- `COPY_TO_ONLINE`
abbrev pub copy_to_online : Text
copy_to_online = bytes "Copy to online"

-- What a run starts: a job of workers, or runners of this process.
pub data Started (V : Type 0) : Type 0 where
  kubernetes_job : JobSpec → Started V
  local_runners : List (MaterializedChunkRunner V) → Started V

-- `envVars`
abbrev pub copy_env_vars : Text → Map Text Text
copy_env_vars config = (bytes "NAME", copy_to_online) ∷ (bytes "CONFIG", config) ∷ []

module _ {V : Type 0} (registry : FactoryMap Text (MaterializedChunkRunner V))
    (serialize : MaterializedChunkRunnerConfig → Text) (submit : JobSpec → Result Text (Unit {0}))
    (image : Text) where
  -- The branch of `Run` for Kubernetes. The number of tasks is an int32.
  unfoldable pub start_kubernetes : MaterializedChunkRunnerConfig → ℕ → Result Error (Started V)
  start_kubernetes config num_chunks =
      let spec = new_job_spec (record {
        env_vars = copy_env_vars (serialize config);
        image = image;
        num_tasks = num_chunks % 2 ^ 32;
      }) in
      elim (submit spec) [ err e ↦ err (job_failed e) | ok u ↦ ok (kubernetes_job spec) ]

  -- The loop of `Run` that makes local runners, whose index is not set. `Run` of a runner starts its
  -- goroutine and returns no error.
  unfoldable pub start_local :
      MaterializedChunkRunnerConfig → ℕ → Result Error (List (MaterializedChunkRunner V))
  start_local config zero = ok []
  start_local config (suc n) = do
    m ← create copy_to_online (serialize config) registry
    rest ← start_local config n
    ok (m ∷ rest)

  -- The `switch` of `Run`.
  unfoldable pub start_runners :
      JobCloud → MaterializedChunkRunnerConfig → ℕ → Result Error (Started V)
  start_runners kubernetes config num_chunks = start_kubernetes config num_chunks
  start_runners local config num_chunks = do
    runners ← start_local config num_chunks
    ok (local_runners runners)
  start_runners other_cloud config num_chunks = err no_cloud

  -- `Run` from the plan of the chunks on.
  unfoldable pub start_chunks : MaterializeRunner → Text → ℕ → Result Error (Started V)
  start_chunks r uuid num_rows =
      let (chunk_size, num_chunks) = plan num_rows in
      start_runners r.cloud
        (record {
          materialized_id = uuid;
          resource_id = r.id;
          chunk_size = chunk_size;
          chunk_idx = 0;
        })
        num_chunks

  -- `Run` after `CreateTable`: only an update may find the table.
  unfoldable pub after_table :
      MaterializeRunner → Text → ℕ → Result Online.Error TableKey → Result Error (Started V)
  after_table r uuid num_rows (ok key) = start_chunks r uuid num_rows
  after_table r uuid num_rows (err (Online.table_already_exists key)) = elim r.is_update [
    | true ↦ start_chunks r uuid num_rows
    | false ↦ err table_exists
  ]
  after_table r uuid num_rows (err e) = err (online e)

  -- `Run` after the materialization is made.
  unfoldable pub after_materialization :
      MaterializeRunner
      → Text
      → Result Types.Error (List (ResourceRecord V))
      → Action Error (Stores V) (Started V)
  after_materialization r uuid (err e) s = (err (offline e), s)
  after_materialization r uuid (ok rows) s =
      let (made, online_store) = Online.create_table (table_key r.id) s.online_store in
      (after_table r uuid (length rows) made, record s { online_store = online_store })

  -- `MaterializeRunner.Run`: what it starts. `UpdateMaterialization` of the memory store is its
  -- `CreateMaterialization`.
  unfoldable pub run : MaterializeRunner → Text → Action Error (Stores V) (Started V)
  run r uuid s =
      let (made, offline_store) = create_materialization uuid r.id s.offline_store in
      after_materialization r uuid made (record s { offline_store = offline_store })
