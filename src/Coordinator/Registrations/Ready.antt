-- ===== src/Coordinator/Registrations/Ready.antt =====
-- coordinator/coordinator.go: the status that a job leaves.
use featureform.Common.{
  ℕ, ◌≡◌, inl, inr, Option, some, [], ok, err, Result-cases, Action, >=>-ok, >=>-err, Bool-cases,
  if◌then◌else◌, arith,
}
use featureform.Text.{Text, text_eq}
use featureform.Metadata.Types.{
  ResourceId, ResourceType, Status, ready, training_set_variant, feature_variant, label_variant,
  source_variant,
}
use featureform.Metadata.Messages.{SourceVariant, Provider}
use featureform.Metadata.Lookup.{ResourceLookup}
use featureform.Metadata.Client
use featureform.Metadata.Client.{is_sql_transformation, is_primary_data_sql_table}
use featureform.Coordinator.Services.{Error, Services, JobConfig, source_not_implemented}
use featureform.Coordinator.Registrations.{
  ◌>->◌, read, set_status, schedule_update, run_sql_transformation_job, run_primary_table_job,
  run_register_source_job, run_label_register_job, run_feature_materialize_job,
  run_training_set_job,
}
use featureform.Coordinator.Jobs.{job_function, coordinator_jobs}

module _ {W H R : Type 0} (L : ResourceLookup W) (S : Services W H R)
    (status_of : W → ResourceId → Option Status)
    (status_set : (now : ℕ) (id : ResourceId) (st : Status) (m : Text) (w : W)
      → (Client.set_status L now id st m w).0 ≡ ok tt
      → status_of (Client.set_status L now id st m w).1 id ≡ some st) where
  -- Where the action answers no error, the resource is ready in the state that it leaves.
  record EndsReady (id : ResourceId) (m : Action Error W (Unit {0})) : Type 0 where
    settled : (w : W) → (m w).0 ≡ ok tt → status_of (m w).1 id ≡ some ready

  last_explicit :
      {A : Type 0} (id : ResourceId) (m : Action Error W A) (f : A → Action Error W (Unit {0}))
      → ((a : A) → EndsReady id (f a))
      → EndsReady id (m >-> f)
  unfolding ◌>->◌
  last_explicit id m f ends = record {
    settled = λ w done. elim (Result-cases (m w).0) [
      | inl (a, e) ↦
          rw (>=>-ok m f w a e) ((ends a).settled (m w).1 (rw (>=>-ok m f w a e) at done))
      | inr (e, failed) ↦ absurd (ground (arith, rw (>=>-err m f w e failed) at done))
    ];
  }

  last :
      {A : Type 0} {id : ResourceId} (m : Action Error W A) {f : A → Action Error W (Unit {0})}
      → ((a : A) → EndsReady id (f a))
      → EndsReady id (m >-> f)
  last {id = id} m {f = f} ends = last_explicit id m f ends

  set_ready : (id : ResourceId) → EndsReady id (set_status L S id ready [])
  unfolding set_status
  set_ready id = record {
    settled = λ w done. elim (Result-cases (Client.set_status L (S.now w) id ready [] w).0) [
      | inl (u, e) ↦ status_set (S.now w) id ready [] w e
      | inr (e, failed) ↦ absurd (ground (arith, rw failed at done))
    ];
  }

  fails_ready : (id : ResourceId) (e : Error) → EndsReady id (read (λ w. err e))
  fails_ready id e = record { settled = λ w done. absurd (ground (arith, done)) }

  then_nothing :
      (id : ResourceId) (m : Action Error W (Unit {0}))
      → EndsReady id m
      → EndsReady id (m >-> λ u. read (λ w. ok tt))
  unfolding ◌>->◌
  then_nothing id m ends = record {
    settled = λ w done. elim (Result-cases (m w).0) [
      | inl (u, e) ↦ rw (>=>-ok m (λ u. read (λ w. ok tt)) w u e) (ends.settled w e)
      | inr (e, failed) ↦
          absurd (ground (arith, rw (>=>-err m (λ u. read (λ w. ok tt)) w e failed) at done))
    ];
  }

  set_ready_schedule :
      (id : ResourceId) (config : JobConfig) (schedule : Text)
      → EndsReady id (set_status L S id ready [] >-> λ u. schedule_update L S config id schedule)
  unfolding schedule_update
  set_ready_schedule id config schedule = elim (Bool-cases (text_eq schedule [])) [
    | inl never ↦ rw never (then_nothing id (set_status L S id ready []) (set_ready id))
    | inr often ↦ rw often (last _ (λ u. last _ (λ v. set_ready id)))
  ]

  sql_transformation_ready :
      (fuel : ℕ) (sanitize : Text → Text) (src : SourceVariant) (id : ResourceId) (schedule : Text)
      (p : Provider)
      → EndsReady id (run_sql_transformation_job L S fuel sanitize src id schedule p)
  unfolding run_sql_transformation_job
  sql_transformation_ready fuel sanitize src id schedule p =
      last _ (λ u. last _ (λ query. last _ (λ u'. set_ready_schedule id _ schedule)))

  primary_table_ready :
      (src : SourceVariant) (id : ResourceId) (store : H)
      → EndsReady id (run_primary_table_job L S src id store)
  unfolding run_primary_table_job
  primary_table_ready src id store = last _ (λ u. last _ (λ u'. set_ready id))

  register_source_ready :
      (fuel : ℕ) (sanitize : Text → Text) (id : ResourceId) (schedule : Text)
      → EndsReady id (run_register_source_job L S fuel sanitize id schedule)
  unfolding run_register_source_job
  register_source_ready fuel sanitize id schedule =
      last _ (λ src. last _ (λ p. last _ (λ store. by_definition src p store)))
    where
      by_definition :
          (src : SourceVariant) (p : Provider) (store : H)
          → EndsReady id (
              if is_sql_transformation src
              then run_sql_transformation_job L S fuel sanitize src id schedule p
              else if is_primary_data_sql_table src
              then run_primary_table_job L S src id store
              else read (λ w. err source_not_implemented))
      by_definition src p store = elim (Bool-cases (is_sql_transformation src)) [
        | inl sql ↦ rw sql (sql_transformation_ready fuel sanitize src id schedule p)
        | inr other ↦ rw other (elim (Bool-cases (is_primary_data_sql_table src)) [
          | inl primary ↦ rw primary (primary_table_ready src id store)
          | inr neither ↦ rw neither (fails_ready id source_not_implemented)
        ])
      ]

  label_ready :
      (fuel timeout : ℕ) (id : ResourceId) (schedule : Text)
      → EndsReady id (run_label_register_job L S fuel timeout id schedule)
  unfolding run_label_register_job
  label_ready fuel timeout id schedule = last _ (λ label. last _ (λ u. last _ (λ u. last _ (λ nv.
      last _ (λ src. last _ (λ p.
        last _ (λ store. last _ (λ table. last _ (λ columns. last _ (λ u. set_ready id))))))))))

  feature_ready :
      (fuel timeout : ℕ) (id : ResourceId) (schedule : Text)
      → EndsReady id (run_feature_materialize_job L S fuel timeout id schedule)
  unfolding run_feature_materialize_job
  feature_ready fuel timeout id schedule = last _ (λ feature. last _ (λ u. last _ (λ u.
      last _ (λ nv. last _ (λ src. last _ (λ p. last _ (λ store. last _ (λ online. last _ (λ table.
        last _ (λ columns. last _ (λ u. last _ (λ u. set_ready_schedule id _ schedule))))))))))))

  training_set_ready :
      (fuel timeout : ℕ) (id : ResourceId) (schedule : Text)
      → EndsReady id (run_training_set_job L S fuel timeout id schedule)
  unfolding run_training_set_job
  training_set_ready fuel timeout id schedule = last _ (λ ts. last _ (λ u. last _ (λ u. last _ (λ p.
      last _ (λ store. last _ (λ u. last _ (λ u. last _ (λ nv. last _ (λ label.
        last _ (λ src. last _ (λ r. last _ (λ u. set_ready_schedule id _ schedule))))))))))))

  -- A job function of any of the four types that returns no error leaves the status of its resource
  -- READY, whatever the schedule, and whatever the providers and the runners did.
  pub coordinator_jobs-ready :
      (fuel timeout : ℕ) (sanitize : Text → Text) (id : ResourceId) (schedule : Text) (w : W)
      (f : ResourceId → Text → Action Error W (Unit {0}))
      → job_function (coordinator_jobs L S fuel timeout sanitize) id.type ≡ some f
      → (f id schedule w).0 ≡ ok tt
      → status_of (f id schedule w).1 id ≡ some ready
  unfolding job_function
  coordinator_jobs-ready fuel timeout sanitize id schedule w f known done = by_type id.type known
    where
      same :
          (g : ResourceId → Text → Action Error W (Unit {0}))
          → g ≡ f
          → EndsReady id (g id schedule)
          → status_of (f id schedule w).1 id ≡ some ready
      same g e ends = (rw e at ends).settled w done

      by_type :
          (t : ResourceType)
          → job_function (coordinator_jobs L S fuel timeout sanitize) t ≡ some f
          → status_of (f id schedule w).1 id ≡ some ready
      by_type training_set_variant e =
          same (run_training_set_job L S fuel timeout) (ground (arith, e))
            (training_set_ready fuel timeout id schedule)
      by_type feature_variant e =
          same (run_feature_materialize_job L S fuel timeout) (ground (arith, e))
            (feature_ready fuel timeout id schedule)
      by_type label_variant e =
          same (run_label_register_job L S fuel timeout) (ground (arith, e))
            (label_ready fuel timeout id schedule)
      by_type source_variant e =
          same (run_register_source_job L S fuel sanitize) (ground (arith, e))
            (register_source_ready fuel sanitize id schedule)
      by_type _ e = absurd (ground (arith, e))
