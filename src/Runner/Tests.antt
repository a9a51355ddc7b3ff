-- ===== src/Runner/Tests.antt =====
-- Runs of the runners on a feature of two entities.
use featureform.Common.{
  ℕ, ◌+◌, ◌≡◌, refl, sym, ◌∙◌, true, false, ◌&&◌, ◌↔◌, ◌≤◌, if◌then◌else◌, Option, none, some, List,
  [], ◌∷◌, Result, ok, err, find, inl, inr, arith, get_elem?, length,
}
use featureform.Text.{Text, bytes, text_eq, text_keys}
use featureform.Provider.Offline.Types.{
  ResourceId, ResourceRecord, id_keys, feature, materialization_not_found,
}
use featureform.Provider.Offline.Table.{Table, latest_record}
use featureform.Provider.Offline.Store.{create_materialization, get_materialization, text_lt}
use featureform.Provider.Online
use featureform.Provider.Online.{TableKey, key_keys, key_eq, LocalOnlineStore, get}
use featureform.Runner.Chunks.{plan}
use featureform.Runner.Chunks.Cover.{Covers, IsIn, plan-Covers}
use featureform.Runner.Copy.{
  offline, table_exists, factory_missing, factory_registered, table_key, MaterializedChunkRunner,
  MaterializedChunkRunnerConfig, chunk_runner_factory,
}
use featureform.Runner.Copy as Copy
use featureform.Runner.Copy.Rows.{HasDistinctEntities, run-copies}
use featureform.Runner.Library.{FactoryMap, register_factory, unregister_factory, create}
use featureform.Runner.Library.Laws.{register_factory-create}
use featureform.Runner.Watchers.{
  SyncWatcher, new_watcher, end_watch, multiplex_wait, multiplex_complete, multiplex_err,
  complete_count, IsWatcher.is_ended, multiplex_wait_iff,
}
use featureform.Runner.Kubernetes.{CompletionMode, indexed, non_indexed, JobSpec, new_job_spec}
use featureform.Runner.Materialize.{
  MaterializeRunner, Stores, kubernetes, local, kubernetes_job, copy_env_vars, copy_to_online,
  start_kubernetes, start_runners, start_chunks, after_table, after_materialization, run,
}
use featureform.Runner.Materialize.Unindexed.{IsUnindexed, run-IsUnindexed}
use featureform.Runner.Materialize.Stranded.{run_local-stranded}

plan-Covers_example : Covers 2500 (plan 2500).0 (plan 2500).1
plan-Covers_example = plan-Covers 2500 (omega arith)

abbrev spend_id : ResourceId
spend_id = record { name = bytes "spend"; variant = bytes "v1"; type = feature }

abbrev ana : ResourceRecord ℕ
ana = record { entity = bytes "ana"; value = some 7; ts = 5 }

abbrev bob : ResourceRecord ℕ
bob = record { entity = bytes "bob"; value = some 9; ts = 6 }

abbrev spend_table : Table ℕ
spend_table = (bytes "ana", ana ∷ []) ∷ (bytes "bob", bob ∷ []) ∷ []

abbrev two_stores : Stores ℕ
two_stores = record {
  offline_store = record {
    tables = (spend_id, spend_table) ∷ [];
    materializations = [];
    training_sets = [];
  };
  online_store = [];
}

abbrev key : TableKey
key = table_key spend_id

-- The runner of the only chunk of two rows.
abbrev a_copier : MaterializedChunkRunner ℕ
a_copier = record { materialized = ana ∷ bob ∷ []; table = key; chunk_size = 2; chunk_idx = 0 }

abbrev spend_online : LocalOnlineStore ℕ
spend_online = (key, []) ∷ []

a_plan : plan 2 ≡ (2, 1)
unfolding plan
a_plan = ground arith

both-HasDistinctEntities : HasDistinctEntities (ana ∷ bob ∷ [])
unfolding HasDistinctEntities
both-HasDistinctEntities r q (inl e) (inl f) same = sym e ∙ f
both-HasDistinctEntities r q (inr (inl e)) (inr (inl f)) same = sym e ∙ f
both-HasDistinctEntities r q (inl e) (inr (inl f)) same =
    absurd (ground (arith, rw (sym e, sym f) at same))
both-HasDistinctEntities r q (inr (inl e)) (inl f) same =
    absurd (ground (arith, rw (sym e, sym f) at same))
both-HasDistinctEntities r q (inr (inr i)) j same = absurd i
both-HasDistinctEntities r q i (inr (inr j)) same = absurd j

run-copies_example :
    ((Copy.run a_copier spend_online).0 ≡ ok tt)
    × ((i : ℕ) (r : ResourceRecord ℕ)
        → IsIn 2 2 0 i
        → get_elem? (ana ∷ bob ∷ []) i ≡ some r
        → get key r.entity (Copy.run a_copier spend_online).1 ≡ ok r.value)
    × ((other : TableKey) (e : Text)
        → ((i : ℕ) (r : ResourceRecord ℕ)
            → IsIn 2 2 0 i
            → get_elem? (ana ∷ bob ∷ []) i ≡ some r
            → (key_eq key other && text_eq r.entity e) ≡ false)
        → get other e (Copy.run a_copier spend_online).1 ≡ get other e spend_online)
run-copies_example =
    run-copies a_copier spend_online (omega arith) (ground (arith, a_plan)) (ground (arith, a_plan))
      both-HasDistinctEntities

-- A configuration is written as the name of its materialization, and a factory that reads it back.
abbrev write_config : MaterializedChunkRunnerConfig → Text
write_config c = c.materialized_id

abbrev accepts : JobSpec → Result Text (Unit {0})
accepts spec = ok tt

abbrev no_factory : FactoryMap Text (MaterializedChunkRunner ℕ)
no_factory = []

abbrev read_index : Text → Option ℕ
read_index t = none

-- Pods of an indexed job find an index.
abbrev pod_index : CompletionMode → ℕ → Option Text
pod_index indexed i = some (i ∷ [])
pod_index non_indexed i = none

abbrev on_kubernetes : MaterializeRunner
on_kubernetes = record { id = spend_id; is_update = false; cloud = kubernetes }

abbrev a_spec : JobSpec
a_spec = record {
  completions = 1;
  parallelism = 1;
  completion_mode = non_indexed;
  image = bytes "worker";
  env = copy_env_vars (bytes "m1");
}

a_spec-started :
    (run no_factory write_config accepts (bytes "worker") on_kubernetes (bytes "m1") two_stores).0
    ≡ ok (kubernetes_job a_spec)
unfolding run create_materialization find text_eq latest_record text_lt after_materialization
    Online.create_table after_table start_chunks start_runners start_kubernetes new_job_spec plan
a_spec-started = refl

run-IsUnindexed_example :
    IsUnindexed no_factory write_config accepts
      (bytes "worker")
      read_index
      pod_index
      (λ i. refl)
      (kubernetes_job a_spec)
run-IsUnindexed_example =
    run-IsUnindexed no_factory write_config accepts (bytes "worker") read_index pod_index
      (λ i. refl) on_kubernetes (bytes "m1") two_stores (kubernetes_job a_spec) refl a_spec-started

abbrev in_process : MaterializeRunner
in_process = record { id = spend_id; is_update = false; cloud = local }

-- The factory, of a configuration with that materialization: what else stands in one it does not come
-- to read.
abbrev read_factory : Text → Result Copy.Error (MaterializedChunkRunner ℕ)
read_factory t =
    chunk_runner_factory
      (record { materialized_id = t; resource_id = spend_id; chunk_size = 1; chunk_idx = 0 })

abbrev the_factory : FactoryMap Text (MaterializedChunkRunner ℕ)
the_factory = (copy_to_online, read_factory) ∷ []

the_factory-registered : find the_factory copy_to_online ≡ some read_factory
unfolding find text_eq
the_factory-registered = refl

reads_config :
    (c : MaterializedChunkRunnerConfig) → read_factory (write_config c) ≡ chunk_runner_factory c
unfolding chunk_runner_factory Copy.chunk_runner_of get_materialization find
reads_config c = refl

two_made :
    (create_materialization (bytes "m1") spend_id two_stores.offline_store).0 ≡ ok (ana ∷ bob ∷ [])
unfolding create_materialization find text_eq latest_record text_lt
two_made = refl

online-fresh : find two_stores.online_store key ≡ none
unfolding find
online-fresh = refl

two_made_again :
    (create_materialization
      (bytes "m2")
      spend_id
      (run the_factory write_config accepts
        (bytes "worker")
        in_process
        (bytes "m1")
        two_stores).1.offline_store).0
    ≡ ok (ana ∷ bob ∷ [])
unfolding run create_materialization find text_eq latest_record text_lt after_materialization
two_made_again = refl

run_local-stranded_example :
    ((run the_factory write_config accepts (bytes "worker") in_process (bytes "m1") two_stores).0
      ≡ err (offline (materialization_not_found (bytes "m1"))))
    × ((run the_factory write_config accepts
          (bytes "worker")
          in_process
          (bytes "m2")
          (run the_factory write_config accepts
            (bytes "worker")
            in_process
            (bytes "m1")
            two_stores).1).0
        ≡ err table_exists)
run_local-stranded_example =
    run_local-stranded the_factory write_config accepts (bytes "worker") read_factory
      the_factory-registered reads_config in_process (bytes "m1") (bytes "m2") two_stores
      (ana ∷ bob ∷ []) (ana ∷ bob ∷ []) refl refl (omega arith) two_made online-fresh two_made_again

-- A registry with one factory, which makes a number of its configuration.
abbrev one_factory : FactoryMap ℕ ℕ
one_factory = (bytes "Materialize", λ c. ok c) ∷ []

copy-free : find one_factory (bytes "Copy to online") ≡ none
unfolding find text_eq
copy-free = refl

register_factory-create_example :
    let after = (register_factory (bytes "Copy to online") (λ c. ok (c + 1)) one_factory).1 in
    ((register_factory (bytes "Copy to online") (λ c. ok (c + 1)) one_factory).0 ≡ ok tt)
    × (create (bytes "Copy to online") 4 after ≡ (
        if text_eq (bytes "Copy to online") (bytes "Copy to online")
        then ok (4 + 1)
        else create (bytes "Copy to online") 4 one_factory))
    × (register_factory (bytes "Copy to online") (λ c. ok c) after
        ≡ (err (factory_registered (bytes "Copy to online")), after))
    × ((unregister_factory (bytes "Copy to online") after).0 ≡ ok tt)
    × (create (bytes "Copy to online") 4 (unregister_factory (bytes "Copy to online") after).1
        ≡ err (factory_missing (bytes "Copy to online")))
register_factory-create_example =
    register_factory-create (bytes "Copy to online") (λ c. ok (c + 1)) (λ c. ok c) one_factory
      (bytes "Copy to online") 4 copy-free

abbrev two_watchers : List (SyncWatcher ℕ)
two_watchers = end_watch none new_watcher ∷ end_watch (some 3) new_watcher ∷ []

multiplex_wait_example :
    ((multiplex_wait two_watchers ≡ some none)
      ↔ ((multiplex_complete two_watchers ≡ true) × (multiplex_err two_watchers ≡ none)))
    × ((multiplex_complete two_watchers ≡ true)
        ↔ (complete_count two_watchers ≡ length two_watchers))
    × (complete_count two_watchers ≤ length two_watchers)
multiplex_wait_example =
    multiplex_wait_iff two_watchers (is_ended none refl, (is_ended (some 3) refl, tt))
