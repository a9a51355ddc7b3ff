-- ===== src/Coordinator/Jobs/Attempts/Retries.antt =====
-- coordinator/coordinator.go: executions of a job one after the other.
use featureform.Common.{
  ℕ, zero, suc, ◌≡◌, ◌≤◌, ◌<◌, ap, ◌∙◌, subst, inl, inr, Option, none, some, Result, ok, err,
  Action, if◌then◌else◌, ◌=?◌, leb, arith, Bool-cases,
}
use featureform.Text.{Text, text_keys, text_eq_refl}
use featureform.Metadata.Types.{ResourceId, Status}
use featureform.Metadata.Lookup.{ResourceLookup}
use featureform.Metadata.Client
use featureform.Metadata.Etcd.{serialize_job, deserialize_job}
use featureform.Metadata.Etcd.Cluster.{Codec, CoordinatorJob}
use featureform.Coordinator.Services.{Error, Services}
use featureform.Coordinator.Registrations.{set_status}
use featureform.Coordinator.Jobs.{
  LockClient, op_put, get_lock_key, JobFunctions, job_function, run_attempt, attempt, execute_job,
  mark_job_failed,
}
use featureform.Coordinator.Jobs.Attempts.{
  Keeps, Holds, fetched, with_lock-result, with_lock-stored, locked-stored, attempt-run,
  attempt-exhausted, counted-stored, run_attempt-fails, run_attempt-succeeds,
}

-- The row of the key is one that decodes to the job.
unfoldable pub HasJob :
    {W : Type 0} (X : Codec) (stored : W → Text → Option Text) → Text → CoordinatorJob → W → Type 0
HasJob X stored key job w =
    (value : Text) × (stored w key ≡ some value) × (deserialize_job X value ≡ ok job)

-- The job with so many attempts counted.
abbrev pub counted : CoordinatorJob → ℕ → CoordinatorJob
counted job n = record job { attempts = n }

-- The encoder and the decoder of jobs know every number of attempts of the job.
pub record EncodesCounts (X : Codec) (job : CoordinatorJob) : Type 0 where
  pub value : ℕ → Text
  pub written : (n : ℕ) → serialize_job X (counted job n) ≡ ok (value n)
  pub read : (n : ℕ) → deserialize_job X (value n) ≡ ok (counted job n)

-- The count after one more execution.
next_count : ℕ → ℕ
next_count n = if leb n 20 then suc n else n

module _ {W H R : Type 0} (L : ResourceLookup W) (S : Services W H R) (E : LockClient W) (X : Codec)
    (F : JobFunctions W) (message : Error → Text) (stored : W → Text → Option Text)
    (holds : Holds E stored)
    (status_keeps : (now : ℕ) (id : ResourceId) (st : Status) (m : Text)
      → Keeps stored (Client.set_status L now id st m))
    (job : CoordinatorJob) (encodes : EncodesCounts X job) where
  -- The state in which `ExecuteJob` has its lock.
  unfoldable pub locked : Text → W → W
  locked key w = (E.lock (get_lock_key key) (E.new_session w).1).1

  locked_row :
      (key : Text) (w : W) (value : Text)
      → stored w key ≡ some value
      → stored (locked key w) key ≡ some value
  unfolding locked
  locked_row key w value there = locked-stored E stored holds (get_lock_key key) w key ∙ there

  -- The state in which the job function runs, so many attempts being counted: `ExecuteJob` has its
  -- lock, and has read and written the job's row.
  unfoldable pub counting : Text → ℕ → W → W
  unfolding locked
  counting key n w =
      (E.commit_if_owner (get_lock_key key) (op_put key (encodes.value n)) (
        fetched L S E X F message stored holds status_keeps (get_lock_key key) key
          (locked key w))).1

  execute_job-run :
      (key : Text) (n : ℕ) (w : W)
      → HasJob X stored key (counted job n) w
      → n ≤ 20
      → attempt L S E X F message (get_lock_key key) key (locked key w)
        ≡ run_attempt L S E X F message
            (get_lock_key key)
            key
            (counted job n)
            (counting key (suc n) w)
  unfolding HasJob counting
  execute_job-run key n w (value, there, decoded) few =
      attempt-run L S E X F message stored holds status_keeps (get_lock_key key) key (locked key w)
        value (encodes.value (suc n)) (counted job n) (locked_row key w value there) decoded few
        (encodes.written (suc n))

  counting-stored :
      (key : Text) (n : ℕ) (w : W) (k : Text)
      → stored (counting key n w) k ≡ (if key =? k then some (encodes.value n) else stored w k)
  unfolding counting locked
  counting-stored key n w k =
      counted-stored L S E X F message stored holds status_keeps (get_lock_key key) key
        (encodes.value n) (locked key w) k
      ∙ ap (λ v. if key =? k then some (encodes.value n) else v)
          (locked-stored E stored holds (get_lock_key key) w k)

  execute-result :
      (key : Text) (w v : W) (r : Result Error (Unit {0}))
      → attempt L S E X F message (get_lock_key key) key (locked key w) ≡ (r, v)
      → (execute_job L S E X F message key w).0 ≡ r
  unfolding execute_job locked
  execute-result key w v r done =
      with_lock-result E stored holds (get_lock_key key)
        (attempt L S E X F message (get_lock_key key) key) w
      ∙ ap (λ p. p.0) done

  execute-stored :
      (key : Text) (w v : W) (r : Result Error (Unit {0})) (k : Text)
      → attempt L S E X F message (get_lock_key key) key (locked key w) ≡ (r, v)
      → stored (execute_job L S E X F message key w).1 k ≡ stored v k
  unfolding execute_job locked
  execute-stored key w v r k done =
      with_lock-stored E stored holds (get_lock_key key)
        (attempt L S E X F message (get_lock_key key) key) w k
      ∙ ap (λ p. stored p.1 k) done

  -- An execution of a job with attempts left, whose job function succeeds and leaves the rows alone in
  -- the state that it is called in, returns no error and deletes the job's row. All other rows stay.
  pub execute_job-succeeds :
      (f : ResourceId → Text → Action Error W (Unit {0})) (key : Text) (n : ℕ) (w : W)
      → job_function F job.resource.type ≡ some f
      → HasJob X stored key (counted job n) w
      → n ≤ 20
      → (f job.resource job.schedule (counting key (suc n) w)).0 ≡ ok tt
      → ((k : Text)
          → stored (f job.resource job.schedule (counting key (suc n) w)).1 k
            ≡ stored (counting key (suc n) w) k)
      → let (result, after) = execute_job L S E X F message key w in
        (result ≡ ok tt) × ((k : Text) → stored after k ≡ (if key =? k then none else stored w k))
  execute_job-succeeds f key n w known has few succeeds keeps =
      let run = execute_job-run key n w has few in
      let counting_row : stored (counting key (suc n) w) key ≡ some (encodes.value (suc n)) =
        counting-stored key (suc n) w key ∙ ground (arith, text_eq_refl key) in
      let done =
        run
        ∙ run_attempt-succeeds L S E X F message stored holds status_keeps f (get_lock_key key) key
            (encodes.value (suc n)) (counted job n) (counting key (suc n) w) known succeeds
            (keeps key ∙ counting_row) in
      (
        execute-result key w _ (ok tt) done,
        λ k.
            execute-stored key w _ (ok tt) k done
            ∙ holds.stored-delete (get_lock_key key) key _ k
            ∙ ground (arith, keeps k, counting-stored key (suc n) w k),
      )

  module _ (f : ResourceId → Text → Action Error W (Unit {0}))
      (f_keeps : (id : ResourceId) (t : Text) → Keeps stored (f id t))
      (known : job_function F job.resource.type ≡ some f) where
    execute_job-fails :
        (key : Text) (n : ℕ) (w : W)
        → HasJob X stored key (counted job n) w
        → n ≤ 20
        → ((v : W) → (e : Error) × ((f job.resource job.schedule v).0 ≡ err e))
        → ((e : Error) × ((execute_job L S E X F message key w).0 ≡ err e))
          × ((k : Text)
              → stored (execute_job L S E X F message key w).1 k
                ≡ (if key =? k then some (encodes.value (suc n)) else stored w k))
    execute_job-fails key n w has few fails =
        let run = execute_job-run key n w has few in
        let (e, failed) = fails (counting key (suc n) w) in
        let ((e', answered), kept) =
          run_attempt-fails L S E X F message stored holds status_keeps f f_keeps (get_lock_key key)
            key (counted job n) (counting key (suc n) w) e known failed in
        (
          (
            e',
            execute-result key w _
                  (run_attempt L S E X F message (get_lock_key key) key (counted job n)
                    (counting key (suc n) w)).0
                  run
                ∙ answered,
          ),
          λ k. execute-stored key w _ _ k run ∙ kept k ∙ counting-stored key (suc n) w k,
        )

    execute_job-exhausted :
        (key : Text) (n : ℕ) (w : W)
        → HasJob X stored key (counted job n) w
        → 20 < n
        → (k : Text) → stored (execute_job L S E X F message key w).1 k ≡ stored w k
    unfolding HasJob mark_job_failed set_status fetched locked
    execute_job-exhausted key n w (value, there, decoded) many k =
        execute-stored key w _ _ k (
          attempt-exhausted L S E X F message stored holds status_keeps (get_lock_key key) key
            (locked key w) value (counted job n) (locked_row key w value there) decoded many)
        ∙ status_keeps _ _ _ _ _ k
        ∙ holds.get_keeps (get_lock_key key) key (locked key w) k
        ∙ locked-stored E stored holds (get_lock_key key) w k

    HasJob-kept :
        (key : Text) (n : ℕ) (w v : W)
        → stored v key ≡ stored w key
        → HasJob X stored key (counted job n) w
        → HasJob X stored key (counted job n) v
    unfolding HasJob
    HasJob-kept key n w v kept (value, there, decoded) = (value, kept ∙ there, decoded)

    HasJob-counted :
        (key : Text) (n : ℕ) (v : W)
        → stored v key ≡ some (encodes.value n)
        → HasJob X stored key (counted job n) v
    unfolding HasJob
    HasJob-counted key n v there = (encodes.value n, there, encodes.read n)

    execute_once-fails :
        (key : Text) (n : ℕ) (w : W)
        → HasJob X stored key (counted job n) w
        → ((v : W) → (e : Error) × ((f job.resource job.schedule v).0 ≡ err e))
        → HasJob X stored key (counted job (next_count n)) (execute_job L S E X F message key w).1
    unfolding next_count
    execute_once-fails key n w has fails = elim (Bool-cases (leb n 20)) [
      | inl few ↦ rw few (
          HasJob-counted key (suc n) _ (
            (execute_job-fails key n w has (ground (arith, few)) fails).1 key
            ∙ ground (arith, text_eq_refl key)))
      | inr many ↦
          rw many (
            HasJob-kept key n w _ (execute_job-exhausted key n w has (ground (arith, many)) key)
              has)
    ]

    -- So many executions, one after the other.
    unfoldable pub execute_times : ℕ → Text → W → W
    execute_times zero key w = w
    execute_times (suc n) key w = (execute_job L S E X F message key (execute_times n key w)).1

    -- A job whose function fails whenever it runs: after so many executions from the first one on, its
    -- row counts them, up to 21. From then on executions leave the row as it is: the count does not
    -- grow, and the job is never deleted.
    pub execute_times-fails :
        (key : Text) (n : ℕ) (w : W)
        → HasJob X stored key (counted job 0) w
        → ((v : W) → (e : Error) × ((f job.resource job.schedule v).0 ≡ err e))
        → HasJob X stored key (counted job (if leb n 21 then n else 21)) (execute_times n key w)
    unfolding execute_times next_count
    execute_times-fails key zero w has fails = has
    execute_times-fails key (suc n) w has fails =
        subst (λ m. HasJob X stored key (counted job m) (execute_times (suc n) key w)) (stop n)
          (execute_once-fails key _ (execute_times n key w) (execute_times-fails key n w has fails)
            fails)
      where
        stop :
            (m : ℕ)
            → next_count (if leb m 21 then m else 21) ≡ (if leb (suc m) 21 then suc m else 21)
        stop m = ground arith
