-- ===== src/Coordinator/Tests.antt =====
-- A small cluster: the metadata, the rows of jobs and a clock that a sleep moves on. Providers and
-- runners answer that all went well.
use featureform.Common.{
  ℕ, ◌+◌, ◌≡◌, refl, inl, inr, true, false, Option, none, some, is_some, [], ◌∷◌, Result, ok, err,
  Action, Map, find, put, remove, find-put, find-remove, if◌then◌else◌, ◌=?◌, arith, leb,
}
use featureform.Text.{Text, bytes, text_keys, text_eq}
use featureform.Metadata.Types.{
  ResourceId, ResourceStatus, Status, ready, source_variant, source, NameVariant, id_keys, id_eq,
  id_eq_iff, type_eq, type_code, failure, type_name, created, provider,
}
use featureform.Metadata.Types
use featureform.Metadata.Messages.{primary_data}
use featureform.Metadata.Resource.{source_variant_resource, provider_resource}
use featureform.Metadata.Lookup.{ResourceLookup}
use featureform.Metadata.Lookup.Local.{LocalResourceLookup, local_lookup}
use featureform.Metadata.Lookup.Local
use featureform.Metadata.Lookup.Local.Updates.{status_of, set_status_lem}
use featureform.Metadata.Client
use featureform.Metadata.Samples.{a_source_variant, a_provider}
use featureform.Metadata.Handlers.{set_resource_status, generic_get}
use featureform.Metadata.Handlers.Reads
use featureform.Metadata.Keys.TypeNames.{type_value}
use featureform.Metadata.Etcd.{serialize_job, deserialize_job, temp_job, job_of_temp}
use featureform.Metadata.Etcd.Cluster.{Codec, CoordinatorJob, TempJob, values_of}
use featureform.Coordinator.Services.{Error, service, Services}
use featureform.Coordinator.Templates.{template_replace}
use featureform.Coordinator.Templates.Filled.{
  HasNoPair, IsTemplate, template_of, filled, template_replace-template,
}
use featureform.Coordinator.Sources.{await_pending_source}
use featureform.Coordinator.Sources.Waiting.{IsAnswer, await_pending_source-ends}
use featureform.Coordinator.Jobs.{
  with_lock, get_lock_key, attempt, get_job, commit, increment_job_attempts, run_attempt, settle,
  delete_job, LockClient, TxnResponse, Op, op_get, op_put, op_delete, JobFunctions, job_function,
  coordinator_jobs, execute_job,
}
use featureform.Coordinator.Jobs.Attempts.{Keeps, Holds, fetched}
use featureform.Coordinator.Jobs.Attempts.Retries.{
  HasJob, counted, counting, EncodesCounts, execute_job-succeeds, execute_times,
  execute_times-fails,
}
use featureform.Coordinator.Registrations.{run_register_source_job, run_primary_table_job, ◌>->◌}
use featureform.Coordinator.Registrations
use featureform.Coordinator.Jobs.Attempts.Completed.{execute_job-completed}

record World : Type 0 where
  resources : LocalResourceLookup
  rows : Map Text Text
  clock : ℕ

-- An action on the metadata of the world.
abbrev on_resources :
    {A : Type 0} → Action Types.Error LocalResourceLookup A → Action Types.Error World A
on_resources m w = let (r, resources) = m w.resources in (r, record w { resources = resources })

abbrev lookups : ResourceLookup World
lookups = record {
  lookup = λ id w. local_lookup.lookup id w.resources;
  has = λ id w. local_lookup.has id w.resources;
  set = λ id r. on_resources (local_lookup.set id r);
  submap = λ ids w. local_lookup.submap ids w.resources;
  list_for_type = λ t w. local_lookup.list_for_type t w.resources;
  list = λ w. local_lookup.list w.resources;
  has_job = λ id w. local_lookup.has_job id w.resources;
  set_job = λ id t. on_resources (local_lookup.set_job id t);
  set_status = λ now id st. on_resources (local_lookup.set_status now id st);
  set_schedule = λ id t. on_resources (local_lookup.set_schedule id t);
}

abbrev services : Services World (Unit {0}) (Unit {0})
services = record {
  offline_store = λ t config w. ok tt;
  register_primary = λ store id name w. (ok tt, w);
  register_resource = λ store id schema w. (ok tt, w);
  has_training_set = λ store id w. false;
  get_job_runner = λ config id w. (ok tt, w);
  run_to_completion = λ runner w. (ok tt, w);
  is_cron_runner = λ runner. true;
  schedule_job = λ runner schedule w. (ok tt, w);
  now = λ w. w.clock;
  sleep = λ w. record w { clock = w.clock + 1000000000 };
  elsewhere = λ w. w;
}

abbrev commit_row : Text → Op → Action Error World TxnResponse
commit_row l (op_get key) w =
    (ok (record { succeeded = true; values = values_of (find w.rows key); deleted = 0 }), w)
commit_row l (op_put key v) w = (
  ok (record { succeeded = true; values = []; deleted = 0 }),
  record w { rows = put w.rows key v },
)
commit_row l (op_delete key) w = (
  ok (record {
    succeeded = true;
    values = [];
    deleted = if is_some (find w.rows key) then 1 else 0;
  }),
  record w { rows = remove w.rows key },
)

abbrev locks : LockClient World
locks = record {
  new_session = λ w. (ok tt, w);
  lock = λ l w. (ok tt, w);
  close_session = λ w. w;
  unlock = λ l w. w;
  commit_if_owner = commit_row;
  count_prefix = λ key w. ok 0;
}

abbrev row_in : World → Text → Option Text
row_in w key = find w.rows key

locks-Holds : Holds locks row_in
locks-Holds = record {
  session_ok = λ w. refl;
  session_keeps = λ w k. refl;
  lock_ok = λ l w. refl;
  lock_keeps = λ l w k. refl;
  unlock_keeps = λ l w k. refl;
  close_keeps = λ w k. refl;
  got = λ l key w. refl;
  get_keeps = λ l key w k. refl;
  was_put = λ l key v w. refl;
  stored-put = λ l key v w k. find-put w.rows key v k;
  was_deleted = λ l key w. refl;
  stored-delete = λ l key w k. find-remove w.rows key k;
}

abbrev job_id : ResourceId
job_id = record { name = bytes "log"; variant = bytes "v1"; type = source_variant }

abbrev a_job : CoordinatorJob
a_job = record { attempts = 0; resource = job_id; schedule = [] }

-- An encoder that writes the attempts of this one job.
abbrev read_count : Text → Result Types.Error TempJob
read_count [] = err (failure [])
read_count (n ∷ t) = ok (record {
  attempts = n;
  name = bytes "log";
  variant = bytes "v1";
  type = type_name source_variant;
  schedule = [];
})

abbrev codec : Codec
codec = record {
  marshal_row = λ row. err (failure []);
  unmarshal_row = λ t. err (failure []);
  marshal = λ r. err (failure []);
  unmarshal = λ t s. err (failure []);
  marshal_job = λ j. ok (j.attempts ∷ []);
  unmarshal_job = read_count;
  marshal_schedule_job = λ j. err (failure []);
}

codec-EncodesCounts : EncodesCounts codec a_job
unfolding serialize_job deserialize_job temp_job job_of_temp type_value text_eq type_name
codec-EncodesCounts = record { value = λ n. n ∷ []; written = λ n. refl; read = λ n. refl }

keeps_rows :
    (now : ℕ) (id : ResourceId) (st : Status) (m : Text)
    → Keeps row_in (Client.set_status lookups now id st m)
unfolding Client.set_status set_resource_status
keeps_rows now id st m w k = refl

abbrev job_key : Text
job_key = bytes "JOB__SOURCE_VARIANT__log__v1"

abbrev a_world : World
a_world = record {
  resources =
      (
        job_id,
        source_variant_resource
            (record a_source_variant { definition = some (primary_data (bytes "log")) }),
      )
      ∷ (
        record { name = bytes "redis"; variant = []; type = provider },
        provider_resource a_provider,
      )
      ∷ [];
  rows = (job_key, 0 ∷ []) ∷ [];
  clock = 0;
}

a_world-HasJob : HasJob codec row_in job_key (counted a_job 0) a_world
unfolding HasJob find deserialize_job job_of_temp type_value text_eq type_name
a_world-HasJob = (0 ∷ [], refl, refl)

-- A job function that fails.
abbrev bad_job : ResourceId → Text → Action Error World (Unit {0})
bad_job id schedule w = (err (service []), w)

abbrev only : (ResourceId → Text → Action Error World (Unit {0})) → JobFunctions World
only f = record { training_set_job = f; feature_job = f; label_job = f; source_job = f }

only_known :
    (f : ResourceId → Text → Action Error World (Unit {0}))
    → job_function (only f) source_variant ≡ some f
unfolding job_function
only_known f = refl

-- The job function of the coordinator, which registers a primary table.
abbrev register_source : ResourceId → Text → Action Error World (Unit {0})
register_source = run_register_source_job lookups services 1 (λ t. t)

abbrev all_jobs : JobFunctions World
all_jobs = coordinator_jobs lookups services 1 60 (λ t. t)

register_source-known : job_function all_jobs source_variant ≡ some register_source
unfolding job_function
register_source-known = refl

-- The world in which `ExecuteJob` calls it.
abbrev first_attempt : World
first_attempt =
    counting lookups services locks codec all_jobs (λ e. []) row_in locks-Holds keeps_rows a_job
      codec-EncodesCounts job_key 1 a_world

register_source-done :
    (register_source job_id [] first_attempt).0 ≡ ok tt
    × ((k : Text) → row_in (register_source job_id [] first_attempt).1 k ≡ row_in first_attempt k)
unfolding counting fetched run_register_source_job run_primary_table_job get_lock_key
    Registrations.set_status ◌>->◌ Client.get_source_variant Client.receive_all
    Reads.get_source_variants generic_get Local.lookup find id_eq text_eq type_eq type_code
    Client.get_provider Reads.get_providers Client.is_sql_transformation
    Client.is_primary_data_sql_table Client.primary_data_sql_table_name Client.set_status
    set_resource_status Local.set_status put
register_source-done = (refl, λ k. refl)

execute_job-succeeds_example :
    let (result, after) =
      execute_job lookups services locks codec all_jobs (λ e. []) job_key a_world in
    (result ≡ ok tt)
    × ((k : Text) → row_in after k ≡ (if job_key =? k then none else row_in a_world k))
execute_job-succeeds_example =
    execute_job-succeeds lookups services locks codec all_jobs (λ e. []) row_in locks-Holds
      keeps_rows a_job codec-EncodesCounts register_source job_key 0 a_world register_source-known
      a_world-HasJob (omega arith) register_source-done.0 register_source-done.1

execute_times-fails_example :
    HasJob codec row_in job_key (counted a_job (if leb 30 21 then 30 else 21)) (
      execute_times lookups services locks codec
        (only bad_job)
        (λ e. [])
        row_in
        locks-Holds
        keeps_rows
        a_job
        codec-EncodesCounts
        bad_job
        (λ id t w k. refl)
        (only_known bad_job)
        30
        job_key
        a_world)
execute_times-fails_example =
    execute_times-fails lookups services locks codec (only bad_job) (λ e. []) row_in locks-Holds
      keeps_rows a_job codec-EncodesCounts bad_job (λ id t w k. refl) (only_known bad_job) job_key
      30 a_world a_world-HasJob (λ v. (service [], refl))

-- A single brace stands in the text.
log_query-IsTemplate : IsTemplate ((bytes "{x=", bytes " a") ∷ []) (bytes ";")
unfolding IsTemplate HasNoPair
log_query-IsTemplate = ((refl, (refl, (refl, tt))), (refl, tt), (refl, (refl, tt)), tt)

template_replace_example :
    template_replace
      (λ t. t)
      ((bytes "a", bytes "t1") ∷ [])
      (template_of ((bytes "{x=", bytes " a") ∷ []) (bytes ";"))
    ≡ filled (λ t. t) ((bytes "a", bytes "t1") ∷ []) ((bytes "{x=", bytes " a") ∷ []) (bytes ";")
template_replace_example =
    template_replace-template (λ t. t) ((bytes "a", bytes "t1") ∷ [])
      ((bytes "{x=", bytes " a") ∷ []) (bytes ";") log_query-IsTemplate

await_pending_source_example :
    IsAnswer
      (await_pending_source lookups services
        (60 + 2)
        60
        (record { name = bytes "log"; variant = bytes "v1" })
        a_world).0
await_pending_source_example =
    await_pending_source-ends lookups services (λ w. omega arith) 60
      (record { name = bytes "log"; variant = bytes "v1" }) a_world

-- The status that the metadata has of a resource.
unfoldable status_in : World → ResourceId → Option Status
status_in w id = elim (find w.resources id) [
  | none ↦ none
  | some r ↦ elim (status_of r) [ none ↦ none | some st ↦ some st.status ]
]

status_in-set :
    (now : ℕ) (id : ResourceId) (st : Status) (m : Text) (w : World)
    → (Client.set_status lookups now id st m w).0 ≡ ok tt
    → status_in (Client.set_status lookups now id st m w).1 id ≡ some st
unfolding Client.set_status set_resource_status status_in
status_in-set now id st m w done =
    elim (set_status_lem now id (record { status = st; error_message = m }) w.resources) [
      | inl (before, after, found, answered, takes, others) ↦
          rw (others id, status_in) (rw ((id_eq_iff id id).1 refl) (rw takes.status refl))
      | inr (absent, e) ↦ absurd (ground (arith, rw e at done))
    ]

a_job-done :
    (execute_job lookups services locks codec
      (coordinator_jobs lookups services 1 60 (λ t. t))
      (λ e. [])
      job_key
      a_world).0
    ≡ ok tt
unfolding execute_job with_lock get_lock_key attempt get_job commit increment_job_attempts
    run_attempt settle delete_job job_function serialize_job deserialize_job temp_job job_of_temp
    type_value type_name remove run_register_source_job run_primary_table_job
    Registrations.set_status ◌>->◌ Client.get_source_variant Client.receive_all
    Reads.get_source_variants generic_get Local.lookup find id_eq text_eq type_eq type_code
    Client.get_provider Reads.get_providers Client.is_sql_transformation
    Client.is_primary_data_sql_table Client.primary_data_sql_table_name Client.set_status
    set_resource_status Local.set_status put
a_job-done = refl

deleted-status :
    (l key : Text) (w : World) (id : ResourceId)
    → status_in (locks.commit_if_owner l (op_delete key) w).1 id ≡ status_in w id
unfolding status_in
deleted-status l key w id = refl

execute_job-completed_example :
    let after =
      (execute_job lookups services locks codec
        (coordinator_jobs lookups services 1 60 (λ t. t))
        (λ e. [])
        job_key
        a_world).1 in
    (status_in after job_id ≡ some ready) × (row_in after job_key ≡ none)
execute_job-completed_example =
    execute_job-completed lookups services locks codec (λ e. []) row_in locks-Holds status_in
      status_in-set deleted-status (λ l w id. refl) (λ w id. refl) 1 60 (λ t. t) job_key a_world
      a_job a_world-HasJob (omega arith) a_job-done
