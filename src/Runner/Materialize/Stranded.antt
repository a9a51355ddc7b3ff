-- ===== src/Runner/Materialize/Stranded.antt =====
-- runner/materialize.go and runner/copy.go: a local run over the stores in memory.
use featureform.Common.{
  ℕ, suc, ◌^◌, ◌≡◌, ◌<◌, refl, ap, ◌∙◌, false, none, some, List, [], Result, ok, err, length, arith,
  find, put, find-put,
}
use featureform.Text.{Text, text_keys}
use featureform.Provider.Offline.Types.{ResourceRecord, materialization_not_found}
use featureform.Provider.Offline.Store.{create_materialization, get_materialization}
use featureform.Provider.Online.{key_keys, key_eq_iff}
use featureform.Provider.Online.Laws.{create_table-fresh, create_table-taken}
use featureform.Runner.Chunks.{plan}
use featureform.Runner.Chunks.Cover.{plan-some}
use featureform.Runner.Copy.{
  offline, table_exists, MaterializedChunkRunner, MaterializedChunkRunnerConfig, table_key,
  chunk_runner_of, chunk_runner_factory,
}
use featureform.Runner.Library.{RunnerFactory, FactoryMap, create}
use featureform.Runner.Kubernetes.{JobSpec}
use featureform.Runner.Materialize.{
  MaterializeRunner, Stores, local, copy_to_online, start_local, start_runners, start_chunks,
  after_table, after_materialization, run,
}

factory-fails :
    {V : Type 0} (config : MaterializedChunkRunnerConfig)
    → chunk_runner_factory {V = V} config
      ≡ err (offline (materialization_not_found config.materialized_id))
unfolding chunk_runner_factory chunk_runner_of get_materialization find
factory-fails config = refl

module _ {V : Type 0} (registry : FactoryMap Text (MaterializedChunkRunner V))
    (serialize : MaterializedChunkRunnerConfig → Text) (submit : JobSpec → Result Text (Unit {0}))
    (image : Text) (factory : RunnerFactory Text (MaterializedChunkRunner V))
    (registered : find registry copy_to_online ≡ some factory)
    (reads : (c : MaterializedChunkRunnerConfig)
      → factory (serialize c) ≡ chunk_runner_factory c) where
  create-fails :
      (config : MaterializedChunkRunnerConfig)
      → create copy_to_online (serialize config) registry
        ≡ err (offline (materialization_not_found config.materialized_id))
  unfolding create
  create-fails config = rw (registered, create) (reads config ∙ factory-fails config)

  start_local-fails :
      (config : MaterializedChunkRunnerConfig) (n : ℕ)
      → start_local registry serialize submit image config (suc n)
        ≡ err (offline (materialization_not_found config.materialized_id))
  unfolding start_local
  start_local-fails config n = rw (create-fails config, start_local) refl

  start_chunks-fails :
      (r : MaterializeRunner) (uuid : Text) (n : ℕ)
      → r.cloud ≡ local
      → n < 2 ^ 63
      → start_chunks registry serialize submit image r uuid n
        ≡ err (offline (materialization_not_found uuid))
  unfolding start_chunks start_runners
  start_chunks-fails r uuid n cloud fits =
      let (k, e) = plan-some n fits in
      rw (cloud, e)
        (rw
          (start_local-fails
            (record {
              materialized_id = uuid;
              resource_id = r.id;
              chunk_size = (plan n).0;
              chunk_idx = 0;
            })
            k)
          refl)

  run_first :
      (r : MaterializeRunner) (uuid : Text) (s : Stores V) (rows : List (ResourceRecord V))
      → (create_materialization uuid r.id s.offline_store).0 ≡ ok rows
      → find s.online_store (table_key r.id) ≡ none
      → run registry serialize submit image r uuid s ≡ (
        start_chunks registry serialize submit image r uuid (length rows),
        record {
          offline_store = (create_materialization uuid r.id s.offline_store).1;
          online_store = put s.online_store (table_key r.id) [];
        },
      )
  unfolding run after_materialization after_table
  run_first r uuid s rows made fresh =
      rw (made, create_table-fresh s.online_store (table_key r.id) fresh) refl

  run_again :
      (r : MaterializeRunner) (uuid : Text) (s : Stores V) (rows : List (ResourceRecord V))
      → r.is_update ≡ false
      → (create_materialization uuid r.id s.offline_store).0 ≡ ok rows
      → find s.online_store (table_key r.id) ≡ some []
      → (run registry serialize submit image r uuid s).0 ≡ err table_exists
  unfolding run after_materialization after_table
  run_again r uuid s rows new made there =
      rw (made, create_table-taken s.online_store (table_key r.id) [] there) (rw new refl)

  -- The first local run over the stores in memory, for a feature that has no online table yet, fails
  -- and leaves the table behind: the factory of its runners looks for the materialization in a new,
  -- empty store. A second run, with any other materialization that it makes in the stores as they
  -- then are, is refused because the table exists. An int64 holds the number of rows.
  pub run_local-stranded :
      (r : MaterializeRunner) (uuid again : Text) (s : Stores V)
      (rows more : List (ResourceRecord V))
      → r.cloud ≡ local
      → r.is_update ≡ false
      → length rows < 2 ^ 63
      → (create_materialization uuid r.id s.offline_store).0 ≡ ok rows
      → find s.online_store (table_key r.id) ≡ none
      → (create_materialization again r.id
          (run registry serialize submit image r uuid s).1.offline_store).0
        ≡ ok more
      → ((run registry serialize submit image r uuid s).0
          ≡ err (offline (materialization_not_found uuid)))
        × ((run registry serialize submit image r again
              (run registry serialize submit image r uuid s).1).0
            ≡ err table_exists)
  run_local-stranded r uuid again s rows more cloud new fits made fresh made_again =
      let first = run_first r uuid s rows made fresh in
      (
        ap (λ p. p.0) first ∙ start_chunks-fails r uuid (length rows) cloud fits,
        run_again r again (run registry serialize submit image r uuid s).1 more new made_again (
            ap (λ p. find p.1.online_store (table_key r.id)) first
            ∙ find-put s.online_store (table_key r.id) [] (table_key r.id)
            ∙ ground (arith, key_eq_iff (table_key r.id) (table_key r.id))),
      )
