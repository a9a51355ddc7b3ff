-- ===== src/Runner/Kubernetes.antt =====
-- runner/kubernetes.go and runner/worker/worker.go: the specification of a job, and what a worker does
-- before it runs its runner. The Kubernetes client is not modelled.
use featureform.Common.{
  ℕ, Bool, Option, none, some, Result, ok, err, ◌>>=◌, Map, find, if◌then◌else◌,
}
use featureform.Text.{Text, bytes, text_eq, text_keys}
use featureform.Runner.Copy.{
  Error, config_not_set, name_not_set, etcd_config_not_set, index_not_set, index_not_expected,
  index_not_int,
}
use featureform.Runner.Library.{FactoryMap, create}

-- `batchv1.CompletionMode`
pub data CompletionMode : Type 0 where
  indexed non_indexed : CompletionMode

-- `type KubernetesRunnerConfig struct`, the resource left out.
pub record KubernetesRunnerConfig : Type 0 where
  pub env_vars : Map Text Text
  pub image : Text
  pub num_tasks : ℕ

-- The fields of a `batchv1.JobSpec` that are set.
pub record JobSpec : Type 0 where
  pub completions : ℕ
  pub parallelism : ℕ
  pub completion_mode : CompletionMode
  pub image : Text
  pub env : Map Text Text

-- An index of a Go map of strings: the empty string where the key is missing.
abbrev env_var : Map Text Text → Text → Text
env_var env name = elim (find env name) [ none ↦ bytes "" | some value ↦ value ]

-- `newJobSpec`
unfoldable pub new_job_spec : KubernetesRunnerConfig → JobSpec
new_job_spec config = record {
  completions = config.num_tasks;
  parallelism = config.num_tasks;
  completion_mode =
      if text_eq (env_var config.env_vars (bytes "Name")) (bytes "Copy to online")
      then indexed
      else non_indexed;
  image = config.image;
  env = config.env_vars;
}

-- The environment variables that a worker reads.
pub record WorkerEnv : Type 0 where
  pub config : Option Text
  pub name : Option Text
  pub etcd_config : Option Text
  pub completion_index : Option Text

-- What a pod of the job finds in them. Kubernetes sets the index of a pod.
abbrev pub worker_env : JobSpec → Option Text → WorkerEnv
worker_env spec index = record {
  config = find spec.env (bytes "CONFIG");
  name = find spec.env (bytes "NAME");
  etcd_config = find spec.env (bytes "ETCD_CONFIG");
  completion_index = index;
}

abbrev required : Error → Option Text → Result Error Text
required e none = err e
required e (some value) = ok value

-- `atoi` is `strconv.Atoi`. `as_index_runner` is `SetIndex` of a runner that has it.
module _ {R : Type 0} (atoi : Text → Option ℕ) (is_update : R → Bool)
    (as_index_runner : R → Option (ℕ → R)) where
  -- The tests of `IndexRunner` and JOB_COMPLETION_INDEX, and `SetIndex`.
  unfoldable pub with_index : R → Option Text → Result Error R
  with_index runner index = elim (as_index_runner runner) [
    | none ↦ elim index [ none ↦ ok runner | some i ↦ err index_not_expected ]
    | some set_index ↦ elim index [
      | none ↦ err index_not_set
      | some i ↦ elim (atoi i) [ none ↦ err index_not_int | some n ↦ ok (set_index n) ]
    ]
  ]

  -- `CreateAndRun`, up to the call of `Run`: the runner that it runs.
  unfoldable pub create_runner : FactoryMap Text R → WorkerEnv → Result Error R
  unfolding with_index
  create_runner registry env = do
    config ← required config_not_set env.config
    name ← required name_not_set env.name
    runner ← create name config registry
    etcd ← if is_update runner then required etcd_config_not_set env.etcd_config else ok (bytes "")
    with_index runner env.completion_index
