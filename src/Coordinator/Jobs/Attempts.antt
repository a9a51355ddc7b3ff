-- ===== src/Coordinator/Jobs/Attempts.antt =====
-- coordinator/coordinator.go: what executions of a job do to its row in etcd.
pub mod Retries
pub mod Completed
use featureform.Common.{
  ℕ, zero, suc, ◌+◌, ◌≡◌, ◌≤◌, ◌<◌, refl, sym, ap, ◌∙◌, Bool, true, false, not, Option, none, some,
  is_some, List, [], ◌∷◌, Result, ok, err, ◌>>=◌, ◌>>◌, Action, ◌>=>◌, >=>-ok, continue, fail_if,
  if◌then◌else◌, ◌==◌, ltb, ◌=?◌, arith,
}
use featureform.Text.{Text, text_keys, text_eq_refl}
use featureform.Metadata.Types.{ResourceId, Status}
use featureform.Metadata.Types
use featureform.Metadata.Lookup.{ResourceLookup}
use featureform.Metadata.Client
use featureform.Metadata.Etcd.{serialize_job, deserialize_job}
use featureform.Metadata.Etcd.Cluster.{Codec, CoordinatorJob, values_of}
use featureform.Coordinator.Services.{Error, no_such_job, Services}
use featureform.Coordinator.Registrations.{read, set_status}
use featureform.Coordinator.Jobs.{
  LockClient, TxnResponse, Op, op_get, op_put, op_delete, commit, delete_job, get_job, job_in,
  increment_job_attempts, with_lock, get_lock_key, JobFunctions, job_function, settle, run_attempt,
  attempt, execute_job, mark_job_failed, max_attempts, failure_of,
}

-- The view of the rows after an action is the one before it.
abbrev pub Keeps : {W E A : Type 0} → (W → Text → Option Text) → Action E W A → Type 0
Keeps {W} stored m = (w : W) (k : Text) → stored (m w).1 k ≡ stored w k

-- What etcd documents of a session whose lease lasts: the lock is had, and the transactions act on
-- a map of keys.
pub record Holds {W : Type 0} (E : LockClient W) (stored : W → Text → Option Text) : Type 0 where
  pub session_ok : (w : W) → (E.new_session w).0 ≡ ok tt
  pub session_keeps : Keeps stored E.new_session
  pub lock_ok : (l : Text) (w : W) → (E.lock l w).0 ≡ ok tt
  pub lock_keeps : (l : Text) → Keeps stored (E.lock l)
  pub unlock_keeps : (l : Text) (w : W) (k : Text) → stored (E.unlock l w) k ≡ stored w k
  pub close_keeps : (w : W) (k : Text) → stored (E.close_session w) k ≡ stored w k
  pub got :
      (l key : Text) (w : W)
      → (E.commit_if_owner l (op_get key) w).0
        ≡ ok (record { succeeded = true; values = values_of (stored w key); deleted = 0 })
  pub get_keeps : (l key : Text) → Keeps stored (E.commit_if_owner l (op_get key))
  pub was_put :
      (l key v : Text) (w : W)
      → (E.commit_if_owner l (op_put key v) w).0
        ≡ ok (record { succeeded = true; values = []; deleted = 0 })
  pub stored-put :
      (l key v : Text) (w : W) (k : Text)
      → stored (E.commit_if_owner l (op_put key v) w).1 k
        ≡ (if key =? k then some v else stored w k)
  pub was_deleted :
      (l key : Text) (w : W)
      → (E.commit_if_owner l (op_delete key) w).0
        ≡ ok (record {
          succeeded = true;
          values = [];
          deleted = if is_some (stored w key) then 1 else 0;
        })
  pub stored-delete :
      (l key : Text) (w : W) (k : Text)
      → stored (E.commit_if_owner l (op_delete key) w).1 k ≡ (if key =? k then none else stored w k)

pub few_attempts : (n : ℕ) → n ≤ 20 → ltb max_attempts n ≡ false
few_attempts n h = ground (arith, h)

module _ {W : Type 0} (E : LockClient W) (stored : W → Text → Option Text)
    (holds : Holds E stored) where
  pub with_lock-result :
      (l : Text) (body : Action Error W (Unit {0})) (w : W)
      → (with_lock E l body w).0 ≡ (body (E.lock l (E.new_session w).1).1).0
  unfolding with_lock
  with_lock-result l body w =
      rw (holds.session_ok w) (rw (holds.lock_ok l (E.new_session w).1) refl)

  pub with_lock-stored :
      (l : Text) (body : Action Error W (Unit {0})) (w : W) (k : Text)
      → stored (with_lock E l body w).1 k ≡ stored (body (E.lock l (E.new_session w).1).1).1 k
  unfolding with_lock
  with_lock-stored l body w k =
      rw (holds.session_ok w) (
        rw (holds.lock_ok l (E.new_session w).1) (holds.close_keeps _ k ∙ holds.unlock_keeps l _ k))

  pub locked-stored :
      (l : Text) (w : W) (k : Text) → stored (E.lock l (E.new_session w).1).1 k ≡ stored w k
  locked-stored l w k = holds.lock_keeps l (E.new_session w).1 k ∙ holds.session_keeps w k

  delete_job_lem :
      (l key : Text) (w : W) (value : Text)
      → stored w key ≡ some value
      → delete_job E l key w ≡ (ok tt, (E.commit_if_owner l (op_delete key) w).1)
  unfolding delete_job commit
  delete_job_lem l key w value there = rw (holds.was_deleted l key w) (rw there refl)

  module _ (X : Codec) where
    get_job_lem :
        (l key : Text) (w : W) (value : Text) (job : CoordinatorJob)
        → stored w key ≡ some value
        → deserialize_job X value ≡ ok job
        → get_job E X l key w ≡ (ok job, (E.commit_if_owner l (op_get key) w).1)
    unfolding get_job commit job_in
    get_job_lem l key w value job there decoded =
        rw (holds.got l key w) (rw there (rw (decoded, job_in) refl))

    increment_lem :
        (l key : Text) (w : W) (value : Text) (job : CoordinatorJob)
        → serialize_job X (record job { attempts = suc job.attempts }) ≡ ok value
        → increment_job_attempts E X l job key w
          ≡ (ok tt, (E.commit_if_owner l (op_put key value) w).1)
    unfolding increment_job_attempts commit
    increment_lem l key w value job encoded = rw encoded (rw (holds.was_put l key value w) refl)

module _ {W H R : Type 0} (L : ResourceLookup W) (S : Services W H R) (E : LockClient W) (X : Codec)
    (F : JobFunctions W) (message : Error → Text) (stored : W → Text → Option Text)
    (holds : Holds E stored)
    (status_keeps : (now : ℕ) (id : ResourceId) (st : Status) (m : Text)
      → Keeps stored (Client.set_status L now id st m)) where
  unfoldable pub fetched : (l key : Text) (w : W) → W
  fetched l key w = (E.commit_if_owner l (op_get key) w).1

  pub attempt-run :
      (l key : Text) (w : W) (value next : Text) (job : CoordinatorJob)
      → stored w key ≡ some value
      → deserialize_job X value ≡ ok job
      → job.attempts ≤ 20
      → serialize_job X (record job { attempts = suc job.attempts }) ≡ ok next
      → attempt L S E X F message l key w
        ≡ run_attempt L S E X F message l key job
            (E.commit_if_owner l (op_put key next) (fetched l key w)).1
  unfolding attempt fetched
  attempt-run l key w value next job there decoded few encoded =
      rw (get_job_lem E stored holds X l key w value job there decoded) (
        rw (few_attempts job.attempts few)
          (rw (increment_lem E stored holds X l key (fetched l key w) next job encoded) refl))

  pub attempt-exhausted :
      (l key : Text) (w : W) (value : Text) (job : CoordinatorJob)
      → stored w key ≡ some value
      → deserialize_job X value ≡ ok job
      → 20 < job.attempts
      → attempt L S E X F message l key w ≡ mark_job_failed L S job (fetched l key w)
  unfolding attempt fetched
  attempt-exhausted l key w value job there decoded many =
      rw (get_job_lem E stored holds X l key w value job there decoded) (ground (arith, many))

  -- The row of the key is what the job function found, and the others are as before.
  pub counted-stored :
      (l key next : Text) (w : W) (k : Text)
      → stored (E.commit_if_owner l (op_put key next) (fetched l key w)).1 k
        ≡ (if key =? k then some next else stored w k)
  unfolding fetched
  counted-stored l key next w k =
      holds.stored-put l key next _ k
      ∙ ap (λ v. if key =? k then some next else v) (holds.get_keeps l key w k)

  pub run_attempt-succeeds :
      (f : ResourceId → Text → Action Error W (Unit {0})) (l key value : Text)
      (job : CoordinatorJob) (w : W)
      → job_function F job.resource.type ≡ some f
      → (f job.resource job.schedule w).0 ≡ ok tt
      → stored (f job.resource job.schedule w).1 key ≡ some value
      → run_attempt L S E X F message l key job w
        ≡ (ok tt, (E.commit_if_owner l (op_delete key) (f job.resource job.schedule w).1).1)
  unfolding run_attempt settle
  run_attempt-succeeds f l key value job w known done there =
      rw (known, run_attempt)
        (rw (done, settle)
          (delete_job_lem E stored holds l key (f job.resource job.schedule w).1 value there))

  module _ (f : ResourceId → Text → Action Error W (Unit {0}))
      (f_keeps : (id : ResourceId) (t : Text) → Keeps stored (f id t)) where
    pub run_attempt-fails :
        (l key : Text) (job : CoordinatorJob) (w : W) (e : Error)
        → job_function F job.resource.type ≡ some f
        → (f job.resource job.schedule w).0 ≡ err e
        → ((e' : Error) × ((run_attempt L S E X F message l key job w).0 ≡ err e'))
          × ((k : Text) → stored (run_attempt L S E X F message l key job w).1 k ≡ stored w k)
    unfolding run_attempt settle
    run_attempt-fails l key job w e known fails =
        rw (known, run_attempt)
          (rw (fails, settle)
            (
              (
                failure_of job.resource.type e
                    (Client.set_status L (S.now (f job.resource job.schedule w).1) job.resource
                      Types.failed (message e) (f job.resource job.schedule w).1).0,
                refl,
              ),
              λ k.
                  status_keeps _ job.resource Types.failed (message e) _ k
                  ∙ f_keeps job.resource job.schedule w k,
            ))
