-- ===== src/Runner/Materialize/Unindexed.antt =====
-- runner/materialize.go, runner/kubernetes.go and runner/worker/worker.go: what becomes of the workers
-- of a run on Kubernetes.
use featureform.Common.{
  ℕ, ◌%◌, ◌^◌, ◌≡◌, refl, false, Bool-cases, Option, none, some, List, inl, inr, Result, ok, err,
  ◌>>=◌, Result-cases, length, arith, find,
}
use featureform.Text.{Text, text_eq, text_keys}
use featureform.Provider.Offline.Types.{ResourceRecord}
use featureform.Provider.Offline.Types
use featureform.Provider.Offline.Store.{create_materialization}
use featureform.Provider.Online
use featureform.Provider.Online.{TableKey, create_table}
use featureform.Runner.Chunks.{plan}
use featureform.Runner.Copy.{
  Error, index_not_set, MaterializedChunkRunner, MaterializedChunkRunnerConfig, set_index,
  table_key,
}
use featureform.Runner.Library.{FactoryMap, create}
use featureform.Runner.Kubernetes.{
  CompletionMode, non_indexed, JobSpec, new_job_spec, worker_env, with_index, create_runner,
}
use featureform.Runner.Materialize.{
  MaterializeRunner, Stores, kubernetes, copy_to_online, Started, kubernetes_job, copy_env_vars,
  start_kubernetes, start_runners, start_chunks, after_table, after_materialization, run,
}

module _ {V : Type 0} (registry : FactoryMap Text (MaterializedChunkRunner V))
    (serialize : MaterializedChunkRunnerConfig → Text) (submit : JobSpec → Result Text (Unit {0}))
    (image : Text) (atoi : Text → Option ℕ) (completion_index : CompletionMode → ℕ → Option Text)
    (unset : (i : ℕ) → completion_index non_indexed i ≡ none) where
  -- The job is not indexed, and each of its workers stops before its runner runs.
  unfoldable pub IsUnindexed : Started V → Type 0
  IsUnindexed started =
      (spec : JobSpec) × (started ≡ kubernetes_job spec)
      × (spec.completion_mode ≡ non_indexed)
      × (config : Text) × ((i : ℕ)
          → create_runner atoi (λ m. false) (λ m. some (λ n. set_index n m)) registry
              (worker_env spec (completion_index spec.completion_mode i))
            ≡ (create copy_to_online config registry >>= λ m. err index_not_set))

  worker : Option Text → Text → Result Error (MaterializedChunkRunner V)
  worker index config =
      create_runner atoi (λ m. false) (λ m. some (λ n. set_index n m)) registry
        (record {
          config = some config;
          name = some copy_to_online;
          etcd_config = none;
          completion_index = index;
        })

  worker-stops :
      (config : Text)
      → worker none config ≡ (create copy_to_online config registry >>= λ m. err index_not_set)
  unfolding worker create_runner with_index
  worker-stops config = refl

  start_kubernetes-IsUnindexed :
      (config : MaterializedChunkRunnerConfig) (num_chunks : ℕ) (started : Started V)
      → start_kubernetes registry serialize submit image config num_chunks ≡ ok started
      → IsUnindexed started
  unfolding start_kubernetes new_job_spec IsUnindexed worker text_eq find
  start_kubernetes-IsUnindexed config num_chunks started h =
      let spec : JobSpec = record {
        completions = num_chunks % 2 ^ 32;
        parallelism = num_chunks % 2 ^ 32;
        completion_mode = non_indexed;
        image = image;
        env = copy_env_vars (serialize config);
      } in
      elim (Result-cases (submit spec)) [
        | inl (u, taken) ↦ (
          spec,
          ground (arith, rw (taken, start_kubernetes) at h),
          refl,
          serialize config,
          λ i. rw (unset i) (worker-stops (serialize config)),
        )
        | inr (e, refused) ↦ absurd (ground (arith, rw (refused, start_kubernetes) at h))
      ]

  start_chunks-IsUnindexed :
      (r : MaterializeRunner) (uuid : Text) (num_rows : ℕ) (started : Started V)
      → r.cloud ≡ kubernetes
      → start_chunks registry serialize submit image r uuid num_rows ≡ ok started
      → IsUnindexed started
  unfolding start_chunks start_runners
  start_chunks-IsUnindexed r uuid num_rows started cloud h =
      start_kubernetes-IsUnindexed _ (plan num_rows).1 started (rw cloud at h)

  after_table-IsUnindexed :
      (r : MaterializeRunner) (uuid : Text) (num_rows : ℕ) (made : Result Online.Error TableKey)
      (started : Started V)
      → r.cloud ≡ kubernetes
      → after_table registry serialize submit image r uuid num_rows made ≡ ok started
      → IsUnindexed started
  unfolding after_table
  after_table-IsUnindexed r uuid n (ok key) started cloud h =
      start_chunks-IsUnindexed r uuid n started cloud h
  after_table-IsUnindexed r uuid n (err (Online.table_already_exists key)) started cloud h =
      elim (Bool-cases r.is_update) [
        | inl update ↦
            start_chunks-IsUnindexed r uuid n started cloud (rw (update, after_table) at h)
        | inr other ↦ absurd (ground (arith, rw (other, after_table) at h))
      ]
  after_table-IsUnindexed r uuid n (err (Online.table_not_found key)) started cloud h =
      absurd (ground (arith, h))
  after_table-IsUnindexed r uuid n (err (Online.entity_not_found e)) started cloud h =
      absurd (ground (arith, h))

  after_materialization-IsUnindexed :
      (r : MaterializeRunner) (uuid : Text) (made : Result Types.Error (List (ResourceRecord V)))
      (s : Stores V) (started : Started V)
      → r.cloud ≡ kubernetes
      → (after_materialization registry serialize submit image r uuid made s).0 ≡ ok started
      → IsUnindexed started
  unfolding after_materialization
  after_materialization-IsUnindexed r uuid (err e) s started cloud h = absurd (ground (arith, h))
  after_materialization-IsUnindexed r uuid (ok rows) s started cloud h =
      after_table-IsUnindexed r uuid (length rows) (create_table (table_key r.id) s.online_store).0
        started cloud h

  -- A run on Kubernetes that returns without an error has submitted a job that is not indexed, since
  -- the specification looks for the runner's name under `Name` and the run sets it under `NAME`.
  -- Kubernetes sets no completion index in the pods of such a job. Then every worker of it stops
  -- before it copies anything: with the error of the registry where that makes no runner of the
  -- configuration, and otherwise because its index is not set.
  pub run-IsUnindexed :
      (r : MaterializeRunner) (uuid : Text) (s : Stores V) (started : Started V)
      → r.cloud ≡ kubernetes
      → (run registry serialize submit image r uuid s).0 ≡ ok started
      → IsUnindexed started
  unfolding run
  run-IsUnindexed r uuid s started cloud h =
      after_materialization-IsUnindexed r uuid (create_materialization uuid r.id s.offline_store).0
        (record s { offline_store = (create_materialization uuid r.id s.offline_store).1 }) started
        cloud h
