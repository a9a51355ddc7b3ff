-- ===== src/Coordinator/Jobs.antt =====
-- coordinator/coordinator.go: the rows of jobs in etcd, and `ExecuteJob`. The etcd client, its
-- sessions and its locks are parameters; a lock is named by its key. A job that fails is tried again
-- since the write that counts its attempt is itself an event that `WatchForNewJobs` watches.
pub mod Attempts
use featureform.Common.{
  ℕ, zero, suc, ◌+◌, Bool, true, false, not, Option, none, some, List, [], ◌∷◌, ◌++◌, Result, ok,
  err, ◌>>=◌, ◌>>◌, Action, ◌>=>◌, continue, fail_if, if◌then◌else◌, ◌==◌, ltb,
}
use featureform.Text.{Text, bytes}
use featureform.Metadata.Types.{
  ResourceId, ResourceType, Status, ready, failed, training_set_variant, feature_variant,
  label_variant, source_variant,
}
use featureform.Metadata.Types
use featureform.Metadata.Lookup.{ResourceLookup}
use featureform.Metadata.Client
use featureform.Metadata.Keys.{get_job_key}
use featureform.Metadata.Etcd.{serialize_job, deserialize_job}
use featureform.Metadata.Etcd.Cluster.{Codec, CoordinatorJob}
use featureform.Coordinator.Services.{
  Error, metadata, service, not_owner, already_deleted, invalid_job_type, malformed_job,
  no_such_job, job_failed, Services,
}
use featureform.Coordinator.Sources.{from_metadata}
use featureform.Coordinator.Registrations.{
  read, set_status, run_training_set_job, run_feature_materialize_job, run_label_register_job,
  run_register_source_job,
}

-- `MAX_ATTEMPTS`
abbrev pub max_attempts : ℕ
max_attempts = 20

-- `GetLockKey`
unfoldable pub get_lock_key : Text → Text
get_lock_key key = bytes "LOCK_" ++ key

-- `clientv3.OpGet`, `OpPut` and `OpDelete`
pub data Op : Type 0 where
  op_get op_delete : Text → Op
  op_put : Text → Text → Op

-- `clientv3.TxnResponse` of one operation: whether its condition held, the values that it got and
-- the number of keys that it deleted.
pub record TxnResponse : Type 0 where
  pub succeeded : Bool
  pub values : List Text
  pub deleted : ℕ

-- A session with the lock that is made in it, released and closed at last, a transaction on the
-- condition that the lock is still owned, and the number of keys with a prefix.
pub record LockClient (W : Type 0) : Type 0 where
  pub new_session : Action Error W (Unit {0})
  pub lock : Text → Action Error W (Unit {0})
  pub close_session : W → W
  pub unlock : Text → W → W
  pub commit_if_owner : Text → Op → Action Error W TxnResponse
  pub count_prefix : Text → W → Result Error ℕ

-- `ResourceUpdatedEvent`, its time left out, and `CoordinatorScheduleJob`, as they are decoded, and
-- the client of Kubernetes that the change of a schedule goes through: the job's spec gets the
-- schedule.
pub record EventClient (W : Type 0) : Type 0 where
  pub decode_update : Text → Result Error ResourceId
  pub decode_schedule : Text → Result Error CoordinatorJob
  pub set_cron_schedule : ResourceId → Text → Action Error W (Unit {0})

module _ {W : Type 0} (E : LockClient W) where
  -- A transaction under the lock whose condition must hold.
  unfoldable pub commit : Text → Op → Action Error W TxnResponse
  commit lock_key op = E.commit_if_owner lock_key op >=> λ response.
      read (λ w. fail_if (not response.succeeded) not_owner >> ok response)

  -- `deleteJob`
  unfoldable pub delete_job : Text → Text → Action Error W (Unit {0})
  unfolding commit
  delete_job lock_key key = commit lock_key (op_delete key) >=> λ response.
      read (λ w. fail_if (not (response.deleted == 1)) already_deleted)

  -- `hasJob`
  unfoldable pub has_job : ResourceId → W → Result Error Bool
  has_job id w = do n ← E.count_prefix (get_job_key id) w; ok (ltb 0 n)

  -- What `ExecuteJob`, `signalResourceUpdate` and `changeJobSchedule` do around their body: a session
  -- and a lock are taken, and released on every way out.
  unfoldable pub with_lock : Text → Action Error W (Unit {0}) → Action Error W (Unit {0})
  with_lock lock_key body = E.new_session >=> λ u. λ w.
      let (result, w') =
        (E.lock lock_key >=> λ u'. λ v. let (done, v') = body v in (done, E.unlock lock_key v'))
          w in
      (result, E.close_session w')

module _ {W : Type 0} (E : LockClient W) (X : Codec) where
  job_in : Text → List Text → Result Error CoordinatorJob
  job_in key [] = err (no_such_job key)
  job_in key (value ∷ values) = elim (deserialize_job X value) [
    | err e ↦ err malformed_job
    | ok job ↦ ok job
  ]

  -- `getJob`
  unfoldable pub get_job : Text → Text → Action Error W CoordinatorJob
  unfolding commit job_in
  get_job lock_key key =
      commit E lock_key (op_get key) >=> λ response. read (λ w. job_in key response.values)

  -- `incrementJobAttempts`
  unfoldable pub increment_job_attempts : Text → CoordinatorJob → Text → Action Error W (Unit {0})
  unfolding commit
  increment_job_attempts lock_key job key =
      read (λ w. from_metadata (serialize_job X (record job { attempts = suc job.attempts })))
      >=> λ value. commit E lock_key (op_put key value) >=> λ response. read (λ w. ok tt)

-- The four functions that run a job.
pub record JobFunctions (W : Type 0) : Type 0 where
  pub training_set_job : ResourceId → Text → Action Error W (Unit {0})
  pub feature_job : ResourceId → Text → Action Error W (Unit {0})
  pub label_job : ResourceId → Text → Action Error W (Unit {0})
  pub source_job : ResourceId → Text → Action Error W (Unit {0})

-- `fns`
unfoldable pub job_function :
    {W : Type 0}
    → JobFunctions W
    → ResourceType
    → Option (ResourceId → Text → Action Error W (Unit {0}))
job_function F training_set_variant = some F.training_set_job
job_function F feature_variant = some F.feature_job
job_function F label_variant = some F.label_job
job_function F source_variant = some F.source_job
job_function F _ = none

-- The error of `ExecuteJob` for a job function that failed, and for the status that was set then.
abbrev pub failure_of : ResourceType → Error → Result Types.Error (Unit {0}) → Error
failure_of t e (ok u) = job_failed t e none
failure_of t e (err e') = job_failed t e (some e')

module _ {W H R : Type 0} (L : ResourceLookup W) (S : Services W H R) where
  -- The functions of the coordinator, with the fuel of their loops and the timeout of their waits.
  abbrev pub coordinator_jobs : ℕ → ℕ → (Text → Text) → JobFunctions W
  coordinator_jobs fuel timeout sanitize = record {
    training_set_job = run_training_set_job L S fuel timeout;
    feature_job = run_feature_materialize_job L S fuel timeout;
    label_job = run_label_register_job L S fuel timeout;
    source_job = run_register_source_job L S fuel sanitize;
  }

  -- `markJobFailed`
  unfoldable pub mark_job_failed : CoordinatorJob → Action Error W (Unit {0})
  mark_job_failed job = set_status L S job.resource failed []

  module _ (E : LockClient W) (X : Codec) (F : JobFunctions W) (message : Error → Text) where
    -- `ExecuteJob`, from the job function's answer on.
    unfoldable pub settle :
        Text → Text → CoordinatorJob → Result Error (Unit {0}) → Action Error W (Unit {0})
    unfolding delete_job
    settle lock_key key job (err e) w =
        let (done, w') = Client.set_status L (S.now w) job.resource failed (message e) w in
        (err (failure_of job.resource.type e done), w')
    settle lock_key key job (ok u) w = delete_job E lock_key key w

    -- `ExecuteJob`, from the choice of the job function on.
    unfoldable pub run_attempt : Text → Text → CoordinatorJob → Action Error W (Unit {0})
    unfolding settle job_function
    run_attempt lock_key key job w = elim (job_function F job.resource.type) [
      | none ↦ (err invalid_job_type, w)
      | some job_fn ↦
          let (done, w') = job_fn job.resource job.schedule w in settle lock_key key job done w'
    ]

    -- `ExecuteJob` under its lock.
    unfoldable pub attempt : Text → Text → Action Error W (Unit {0})
    unfolding get_job mark_job_failed increment_job_attempts run_attempt
    attempt lock_key key = get_job E X lock_key key >=> λ job.
        if ltb max_attempts job.attempts
        then mark_job_failed job
        else (increment_job_attempts E X lock_key job key >=> λ u. run_attempt lock_key key job)

    -- `ExecuteJob`
    unfoldable pub execute_job : Text → Action Error W (Unit {0})
    unfolding attempt with_lock get_lock_key
    execute_job key = with_lock E (get_lock_key key) (attempt (get_lock_key key) key)

  module _ (E : LockClient W) (V : EventClient W) where
    -- `signalResourceUpdate`
    unfoldable pub signal_resource_update : Text → Text → Action Error W (Unit {0})
    unfolding with_lock get_lock_key delete_job
    signal_resource_update key value = with_lock E (get_lock_key key) (
        read (λ w. V.decode_update value) >=> λ id.
        set_status L S id ready [] >=> λ u. delete_job E (get_lock_key key) key)

    -- `changeJobSchedule`
    unfoldable pub change_job_schedule : Text → Text → Action Error W (Unit {0})
    unfolding with_lock get_lock_key delete_job
    change_job_schedule key value = with_lock E (get_lock_key key) (
        read (λ w. V.decode_schedule value) >=> λ job.
        V.set_cron_schedule job.resource job.schedule >=> λ u.
        set_status L S job.resource ready [] >=> λ u. delete_job E (get_lock_key key) key)
