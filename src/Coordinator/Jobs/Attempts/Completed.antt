-- ===== src/Coordinator/Jobs/Attempts/Completed.antt =====
-- coordinator/coordinator.go: what an execution that returns no error leaves.
use featureform.Common.{
  ℕ, ◌≡◌, ◌≤◌, refl, ◌∙◌, inl, inr, Option, none, some, Result, ok, err, Result-cases, Action,
  ◌>=>◌, >=>-ok, >=>-err, arith, Option-cases,
}
use featureform.Text.{Text, text_keys, text_eq_refl}
use featureform.Metadata.Types.{ResourceId, Status, ready}
use featureform.Metadata.Lookup.{ResourceLookup}
use featureform.Metadata.Client
use featureform.Metadata.Etcd.{deserialize_job}
use featureform.Metadata.Etcd.Cluster.{Codec, CoordinatorJob}
use featureform.Coordinator.Services.{Error, Services, invalid_job_type}
use featureform.Coordinator.Registrations.Ready.{coordinator_jobs-ready}
use featureform.Coordinator.Jobs.{
  LockClient, op_get, op_delete, commit, get_lock_key, delete_job, job_function, coordinator_jobs,
  settle, run_attempt, attempt, execute_job, increment_job_attempts, with_lock,
}
use featureform.Coordinator.Jobs.Attempts.{Holds, get_job_lem, locked-stored, few_attempts}
use featureform.Coordinator.Jobs.Attempts.Retries.{HasJob}

module _ {W H R : Type 0} (L : ResourceLookup W) (S : Services W H R) (E : LockClient W) (X : Codec)
    (message : Error → Text) (stored : W → Text → Option Text) (holds : Holds E stored)
    (status_of : W → ResourceId → Option Status)
    (status_set : (now : ℕ) (id : ResourceId) (st : Status) (m : Text) (w : W)
      → (Client.set_status L now id st m w).0 ≡ ok tt
      → status_of (Client.set_status L now id st m w).1 id ≡ some st)
    (delete_keeps : (l key : Text) (w : W) (id : ResourceId)
      → status_of (E.commit_if_owner l (op_delete key) w).1 id ≡ status_of w id)
    (unlock_keeps : (l : Text) (w : W) (id : ResourceId)
      → status_of (E.unlock l w) id ≡ status_of w id)
    (close_keeps : (w : W) (id : ResourceId) → status_of (E.close_session w) id ≡ status_of w id)
    (fuel timeout : ℕ) (sanitize : Text → Text) where
  -- Where the answer is no error, the resource is ready and the row of its job is gone.
  IsCompleted : Text → ResourceId → Result Error (Unit {0}) × W → Type 0
  IsCompleted key id (result, w) =
      result ≡ ok tt → (status_of w id ≡ some ready) × (stored w key ≡ none)

  failed : (key : Text) (id : ResourceId) (e : Error) (w : W) → IsCompleted key id (err e, w)
  unfolding IsCompleted
  failed key id e w done = absurd (ground (arith, done))

  delete_job-state :
      (l key : Text) (w : W) → (delete_job E l key w).1 ≡ (E.commit_if_owner l (op_delete key) w).1
  unfolding delete_job commit
  delete_job-state l key w = rw (holds.was_deleted l key w) refl

  deleted :
      (l key : Text) (id : ResourceId) (w : W)
      → status_of w id ≡ some ready
      → IsCompleted key id (delete_job E l key w)
  unfolding IsCompleted
  deleted l key id w is_ready done = rw (delete_job-state l key w) (
    delete_keeps l key w id ∙ is_ready,
    holds.stored-delete l key w key ∙ ground (arith, text_eq_refl key),
  )

  run_attempt-completed :
      (l key : Text) (job : CoordinatorJob) (w : W)
      → IsCompleted key job.resource
          (run_attempt L S E X (coordinator_jobs L S fuel timeout sanitize) message l key job w)
  unfolding run_attempt
  run_attempt-completed l key job w =
      elim (Option-cases
        (job_function (coordinator_jobs L S fuel timeout sanitize) job.resource.type)) [
          | inl unknown ↦ rw (unknown, run_attempt) (failed key job.resource invalid_job_type w)
          | inr (f, known) ↦ elim (Result-cases (f job.resource job.schedule w).0) [
            | inl (u, done) ↦
                rw (known, run_attempt)
                  (rw (done, settle)
                    (deleted l key job.resource (f job.resource job.schedule w).1 (
                      coordinator_jobs-ready L S status_of status_set fuel timeout sanitize
                        job.resource job.schedule w f known done)))
            | inr (e, bad) ↦
                rw (known, run_attempt) (rw (bad, settle) (failed key job.resource _ _))
          ]
        ]

  attempt-completed :
      (l key : Text) (w : W) (value : Text) (job : CoordinatorJob)
      → stored w key ≡ some value
      → deserialize_job X value ≡ ok job
      → job.attempts ≤ 20
      → IsCompleted key job.resource
          (attempt L S E X (coordinator_jobs L S fuel timeout sanitize) message l key w)
  unfolding attempt
  attempt-completed l key w value job there decoded few =
      rw (get_job_lem E stored holds X l key w value job there decoded)
        (rw (few_attempts job.attempts few) (counted (increment_job_attempts E X l job key)))
    where
      counted :
          (count : Action Error W (Unit {0}))
          → IsCompleted key job.resource (
              (count >=> λ u.
              run_attempt L S E X (coordinator_jobs L S fuel timeout sanitize) message l key job)
                (E.commit_if_owner l (op_get key) w).1)
      counted count = elim (Result-cases (count (E.commit_if_owner l (op_get key) w).1).0) [
        | inl (u, e) ↦
            rw
              (>=>-ok count
                (λ u.
                  run_attempt L S E X (coordinator_jobs L S fuel timeout sanitize) message l key
                    job)
                (E.commit_if_owner l (op_get key) w).1 u e)
              (run_attempt-completed l key job (count (E.commit_if_owner l (op_get key) w).1).1)
        | inr (e, bad) ↦
            rw
              (>=>-err count
                (λ u.
                  run_attempt L S E X (coordinator_jobs L S fuel timeout sanitize) message l key
                    job)
                (E.commit_if_owner l (op_get key) w).1 e bad)
              (failed key job.resource e (count (E.commit_if_owner l (op_get key) w).1).1)
      ]

  with_lock-completed :
      (l key : Text) (id : ResourceId) (body : Action Error W (Unit {0})) (w : W)
      → IsCompleted key id (body (E.lock l (E.new_session w).1).1)
      → IsCompleted key id (with_lock E l body w)
  unfolding IsCompleted with_lock
  with_lock-completed l key id body w completed = rw (holds.session_ok w) (
      rw (holds.lock_ok l (E.new_session w).1) (λ done.
        let (is_ready, gone) = completed done in
        (
          close_keeps _ id ∙ unlock_keeps l _ id ∙ is_ready,
          holds.close_keeps _ key ∙ holds.unlock_keeps l _ key ∙ gone,
        )))

  -- While the lease of its lock lasts, an execution of a job with attempts left that returns no error
  -- leaves the job's resource READY and has deleted the job's row, whatever the providers and the
  -- runners did and whichever of the four types the resource has.
  pub execute_job-completed :
      (key : Text) (w : W) (job : CoordinatorJob)
      → HasJob X stored key job w
      → job.attempts ≤ 20
      → (execute_job L S E X (coordinator_jobs L S fuel timeout sanitize) message key w).0 ≡ ok tt
      → let after =
          (execute_job L S E X (coordinator_jobs L S fuel timeout sanitize) message key w).1 in
        (status_of after job.resource ≡ some ready) × (stored after key ≡ none)
  unfolding execute_job IsCompleted HasJob
  execute_job-completed key w job (value, there, decoded) few =
      with_lock-completed (get_lock_key key) key job.resource _ w (
        attempt-completed (get_lock_key key) key _ value job
          (locked-stored E stored holds (get_lock_key key) w key ∙ there) decoded few)
