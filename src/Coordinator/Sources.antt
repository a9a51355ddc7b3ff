-- ===== src/Coordinator/Sources.antt =====
-- coordinator/coordinator.go: how a job waits for its sources and names their tables. The clock
-- tells nanoseconds. A loop has fuel, and Waiting shows how much is enough.
pub mod Waiting
use featureform.Common.{
  ℕ, zero, suc, ◌+◌, ◌-◌, ◌*◌, Bool, true, false, not, ◌&&◌, ◌||◌, Option, none, some, List, [],
  ◌∷◌, ◌++◌, length, Result, ok, err, ◌>>=◌, ◌>>◌, Action, ◌>=>◌, continue, fail_if, Map, put,
  if◌then◌else◌, ◌==◌, ltb,
}
use featureform.Text.{Text, bytes, contains, text_keys}
use featureform.Metadata.Types.{NameVariant, Status, no_status, created, pending, ready, failed}
use featureform.Metadata.Types
use featureform.Metadata.Messages.{SourceVariant}
use featureform.Metadata.Lookup.{ResourceLookup}
use featureform.Metadata.Client.{
  client_string, status_in, is_sql_transformation, is_primary_data_sql_table, get_source_variant,
  get_source_variants,
}
use featureform.Coordinator.Services.{
  Error, metadata, source_failed, source_not_ready, waited_too_long, still_waiting,
  unsafe_table_name, Services,
}

-- A failure of the metadata service, passed on.
abbrev pub from_metadata {ℓ} : {A : Type ℓ} → Result Types.Error A → Result Error A
from_metadata (ok a) = ok a
from_metadata (err e) = err (metadata e)

abbrev pub is_ready : Status → Bool
is_ready ready = true
is_ready _ = false

abbrev pub is_failed : Status → Bool
is_failed failed = true
is_failed _ = false

-- `GetPrimaryTableName` of provider/sql.go
unfoldable pub get_primary_table_name : Text → Text → Result Error Text
get_primary_table_name name variant =
    if contains name (bytes "__") || contains variant (bytes "__")
    then err unsafe_table_name
    else ok (bytes "featureform_primary_" ++ (name ++ (bytes "__" ++ variant)))

-- `GetTransformationName` of provider/sql.go
unfoldable pub get_transformation_name : Text → Text → Result Error Text
unfolding get_primary_table_name
get_transformation_name = get_primary_table_name

module _ {W H R : Type 0} (L : ResourceLookup W) (S : Services W H R) where
  -- `AwaitPendingSource`, for so many polls at most: the loop goes on while fewer than
  -- `timeout` seconds are counted. The status that the loop tests is never assigned, as the one inside shadows
  -- it, so the time alone ends it.
  unfoldable pub await_loop : ℕ → ℕ → ℕ → ℕ → NameVariant → Action Error W SourceVariant
  await_loop zero timeout start elapsed nv w = (err still_waiting, w)
  await_loop (suc fuel) timeout start elapsed nv w =
      let next = λ (w' : W). await_loop fuel timeout start (S.now w - start) nv w' in
      if ltb elapsed (timeout * 1000000000)
      then elim (get_source_variant L nv w) [
        | err e ↦ (err (metadata e), w)
        | ok source ↦
            if is_failed (status_in source.status)
            then (err source_failed, w)
            else if is_ready (status_in source.status)
            then (ok source, w)
            else next (S.sleep w)
      ]
      else (err waited_too_long, w)

  -- `AwaitPendingSource`
  unfoldable pub await_pending_source : ℕ → ℕ → NameVariant → Action Error W SourceVariant
  unfolding await_loop
  await_pending_source fuel timeout nv w = await_loop fuel timeout (S.now w) 0 nv w

  -- One poll of the loop of `runSQLTransformationJob`: whether all sources are ready, or the error
  -- where one has failed.
  unfoldable pub all_ready : List SourceVariant → Result Error Bool
  all_ready [] = ok true
  all_ready (v ∷ vs) =
      if is_failed (status_in v.status)
      then err source_failed
      else (do rest ← all_ready vs; ok (is_ready (status_in v.status) && rest))

  -- The loop, for so many polls at most.
  unfoldable pub await_all : ℕ → List NameVariant → Action Error W (Unit {0})
  unfolding all_ready
  await_all zero sources w = (err still_waiting, w)
  await_all (suc fuel) sources w =
      let later = await_all fuel sources (S.elsewhere w) in
      elim (do vs ← from_metadata (get_source_variants L sources w); all_ready vs) [
        | err e ↦ (err e, w)
        | ok true ↦ (ok tt, w)
        | ok false ↦ later
      ]

  -- The table of a source, empty where it has neither kind of definition.
  unfoldable pub table_name : SourceVariant → Result Error Text
  unfolding get_transformation_name get_primary_table_name
  table_name source =
      if is_sql_transformation source
      then get_transformation_name source.name source.variant
      else if is_primary_data_sql_table source
      then get_primary_table_name source.name source.variant
      else ok []

  -- The loop of `mapNameVariantsToTables`.
  map_tables_loop : W → Map Text Text → List NameVariant → Result Error (Map Text Text)
  unfolding table_name
  map_tables_loop w tables [] = ok tables
  map_tables_loop w tables (nv ∷ nvs) = do
    source ← from_metadata (get_source_variant L nv w)
    fail_if (not (is_ready (status_in source.status))) source_not_ready
    table ← table_name source
    map_tables_loop w (put tables (client_string nv) table) nvs

  -- `mapNameVariantsToTables`
  unfoldable pub map_name_variants_to_tables : List NameVariant → W → Result Error (Map Text Text)
  unfolding map_tables_loop
  map_name_variants_to_tables sources w = map_tables_loop w [] sources
