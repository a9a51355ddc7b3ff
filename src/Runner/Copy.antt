-- ===== src/Runner/Copy.antt =====
-- runner/copy.go: `MaterializedChunkRunner`, over a materialization of the memory offline store and
-- a table of the online store in memory.
pub mod Rows
use featureform.Common.{
  ℕ, zero, suc, ◌+◌, ◌*◌, Bool, true, false, Option, none, some, List, [], ◌∷◌, if◌then◌else◌, ◌==◌,
  ltb, length, Result, ok, err, ◌>>=◌, Action,
}
use featureform.Text.{Text}
use featureform.Provider.Offline.Types.{ResourceId, ResourceRecord}
use featureform.Provider.Offline.Types
use featureform.Provider.Offline.Store.{MemoryOfflineStore, get_materialization, new_store}
use featureform.Provider.Offline.Iterator.{segment}
use featureform.Provider.Online
use featureform.Provider.Online.{TableKey, LocalOnlineStore, new_local_online_store}
use featureform.Runner.Chunks.{row_start, row_end, lt64, mul64}

-- What a runner may fail with, and the panic of a slice whose bounds are out of range.
pub data Error : Type 0 where
  offline : Types.Error → Error
  online : Online.Error → Error
  factory_missing factory_registered : Text → Error
  table_exists starts_after_end no_cloud : Error
  job_failed : Text → Error
  -- What a worker may fail with.
  config_not_set name_not_set etcd_config_not_set : Error
  index_not_set index_not_expected index_not_int : Error

-- A failure of the offline store or of the online store, passed on.
abbrev pub from_offline {ℓ} : {A : Type ℓ} → Result Types.Error A → Result Error A
from_offline (ok a) = ok a
from_offline (err e) = err (offline e)

abbrev pub from_online {ℓ} : {A : Type ℓ} → Result Online.Error A → Result Error A
from_online (ok a) = ok a
from_online (err e) = err (online e)

-- `type MaterializedChunkRunner struct`: the rows of its materialization, and the key of its table.
pub record MaterializedChunkRunner (V : Type 0) : Type 0 where
  pub materialized : List (ResourceRecord V)
  pub table : TableKey
  pub chunk_size : ℕ
  pub chunk_idx : ℕ

-- `type MaterializedChunkRunnerConfig struct`, the configurations of the providers left out.
pub record MaterializedChunkRunnerConfig : Type 0 where
  pub materialized_id : Text
  pub resource_id : ResourceId
  pub chunk_size : ℕ
  pub chunk_idx : ℕ

abbrev pub table_key : ResourceId → TableKey
table_key id = record { feature = id.name; variant = id.variant }

module _ {V : Type 0} where
  -- `MaterializedChunkRunner.SetIndex`
  abbrev pub set_index : ℕ → MaterializedChunkRunner V → MaterializedChunkRunner V
  set_index index m = record m { chunk_idx = index }

  -- `MaterializedChunkRunnerFactory`, from the stores on that the providers were converted to.
  unfoldable pub chunk_runner_of :
      MemoryOfflineStore V
      → LocalOnlineStore V
      → MaterializedChunkRunnerConfig
      → Result Error (MaterializedChunkRunner V)
  chunk_runner_of offline_store online_store config = do
    rows ← from_offline (get_materialization config.materialized_id offline_store)
    let num_rows = length rows
    table ←
        if lt64 num_rows (mul64 config.chunk_size config.chunk_idx)
        then err starts_after_end
        else from_online (Online.get_table (table_key config.resource_id) online_store)
    ok (record {
      materialized = rows;
      table = table;
      chunk_size = config.chunk_size;
      chunk_idx = config.chunk_idx;
    })

  -- `MaterializedChunkRunnerFactory` for the types of the stores in memory: `provider.Get` makes a new
  -- store of either type.
  unfoldable pub chunk_runner_factory :
      MaterializedChunkRunnerConfig → Result Error (MaterializedChunkRunner V)
  unfolding chunk_runner_of
  chunk_runner_factory config = chunk_runner_of new_store new_local_online_store config

  -- The rows that `Run` copies: none of an empty chunk or an empty materialization.
  unfoldable pub chunk_rows : MaterializedChunkRunner V → Result Error (List (ResourceRecord V))
  chunk_rows m =
      let num_rows = length m.materialized in
      if m.chunk_size == 0
      then ok []
      else if num_rows == 0
      then ok []
      else from_offline (
          segment m.materialized (row_start m.chunk_size m.chunk_idx)
            (row_end m.chunk_size m.chunk_idx num_rows))

  -- The loop of `Run`: a row after the other is set in the table, until a `Set` fails.
  unfoldable pub copy_rows :
      TableKey → List (ResourceRecord V) → Action Error (LocalOnlineStore V) (Unit {0})
  copy_rows table [] s = (ok tt, s)
  copy_rows table (r ∷ rs) s =
      let (answered, s') = Online.set table r.entity r.value s in
      elim answered [ err e ↦ (err (online e), s') | ok u ↦ copy_rows table rs s' ]

  -- `MaterializedChunkRunner.Run`: what its goroutine does while nothing else uses the stores, and
  -- the error that its watcher ends with.
  unfoldable pub run : MaterializedChunkRunner V → Action Error (LocalOnlineStore V) (Unit {0})
  unfolding copy_rows chunk_rows
  run m s = elim (chunk_rows m) [ err e ↦ (err e, s) | ok rows ↦ copy_rows m.table rows s ]
