-- ===== src/Metadata/Client.antt =====
-- metadata/client.go: the calls of the service that the coordinator makes, and what it reads of the
-- resources. A call goes to the handlers of `MetadataServer`; a stream of theirs that is read to its
-- end is the list of what they sent, or their error.
pub mod Fetches
pub mod Lists
pub mod Requests
pub mod Tests
use featureform.Common.{
  Bool, true, false, Option, none, some, List, [], ◌∷◌, ◌++◌, Result, ok, err, ◌>>=◌, Action, map,
}
use featureform.Text.{Text, bytes}
use featureform.Metadata.Types.{
  ResourceId, ResourceStatus, Status, no_status, NameVariant, Error, nil_dereference,
}
use featureform.Metadata.Messages.{
  Timestamp, FeatureVariant, LabelVariant, TrainingSetVariant, SourceVariant, Provider, Columns,
  transformation, primary_data,
}
use featureform.Metadata.Resource.{
  Resource, feature_variant_resource, label_variant_resource, training_set_variant_resource,
  source_variant_resource, provider_resource,
}
use featureform.Metadata.Lookup.{ResourceLookup}
use featureform.Metadata.Handlers.{set_resource_status}
use featureform.Metadata.Handlers.Reads

-- `NameVariant.ClientString`
unfoldable pub client_string : NameVariant → Text
client_string nv = nv.name ++ (bytes "." ++ nv.variant)

-- `Status` of a variant: 0 where the message has none.
abbrev pub status_in : Option ResourceStatus → Status
status_in none = no_status
status_in (some s) = s.status

-- `parseNameVariant` of a message field, which reads through a nil pointer where it is not set.
abbrev pub name_variant_in : Option NameVariant → Result Error NameVariant
name_variant_in none = err nil_dereference
name_variant_in (some nv) = ok nv

-- `LocationColumns`, which does the same.
abbrev pub columns_in : Option Columns → Result Error Columns
columns_in none = err nil_dereference
columns_in (some c) = ok c

-- `IsSQLTransformation`
unfoldable pub is_sql_transformation : SourceVariant → Bool
is_sql_transformation s = elim s.definition [
  | some (transformation query sources) ↦ true
  | _ ↦ false
]

-- `SQLTransformationQuery`
unfoldable pub sql_transformation_query : SourceVariant → Text
sql_transformation_query s = elim s.definition [
  | some (transformation query sources) ↦ query
  | _ ↦ []
]

-- `SQLTransformationSources`
unfoldable pub sql_transformation_sources : SourceVariant → List NameVariant
sql_transformation_sources s = elim s.definition [
  | some (transformation query sources) ↦ sources
  | _ ↦ []
]

-- `IsPrimaryDataSQLTable`
unfoldable pub is_primary_data_sql_table : SourceVariant → Bool
is_primary_data_sql_table s = elim s.definition [ some (primary_data name) ↦ true | _ ↦ false ]

-- `PrimaryDataSQLTableName`
unfoldable pub primary_data_sql_table_name : SourceVariant → Text
primary_data_sql_table_name s = elim s.definition [ some (primary_data name) ↦ name | _ ↦ [] ]

-- What the handlers send of one kind of resource.
source_variants_in : List Resource → Result Error (List SourceVariant)
source_variants_in [] = ok []
source_variants_in (source_variant_resource v ∷ rs) = do vs ← source_variants_in rs; ok (v ∷ vs)
source_variants_in (_ ∷ rs) = err nil_dereference

-- `variants[0]`
first_of : List Resource → Result Error Resource
first_of [] = err nil_dereference
first_of (r ∷ rs) = ok r

as_source_variant : Resource → Result Error SourceVariant
as_source_variant (source_variant_resource v) = ok v
as_source_variant _ = err nil_dereference

as_feature_variant : Resource → Result Error FeatureVariant
as_feature_variant (feature_variant_resource v) = ok v
as_feature_variant _ = err nil_dereference

as_label_variant : Resource → Result Error LabelVariant
as_label_variant (label_variant_resource v) = ok v
as_label_variant _ = err nil_dereference

as_training_set_variant : Resource → Result Error TrainingSetVariant
as_training_set_variant (training_set_variant_resource v) = ok v
as_training_set_variant _ = err nil_dereference

as_provider : Resource → Result Error Provider
as_provider (provider_resource p) = ok p
as_provider _ = err nil_dereference

-- The `parse...Stream` loops: all that is received before io.EOF, or the error.
unfoldable pub receive_all : Result Error (Unit {0}) × List Resource → Result Error (List Resource)
receive_all (ok u, sent) = ok sent
receive_all (err e, sent) = err e

unfoldable pub sends : List Resource → Resource → Result Error (Unit {0})
sends sent r = ok tt

module _ {W : Type 0} (L : ResourceLookup W) where
  -- `GetSourceVariants`
  unfoldable pub get_source_variants : List NameVariant → W → Result Error (List SourceVariant)
  unfolding source_variants_in sends
  get_source_variants ids w = do
    rs ← receive_all (Reads.get_source_variants L sends w (map ok ids))
    source_variants_in rs

  -- `GetSourceVariant`
  unfoldable pub get_source_variant : NameVariant → W → Result Error SourceVariant
  unfolding first_of as_source_variant sends
  get_source_variant id w = do
    rs ← receive_all (Reads.get_source_variants L sends w (ok id ∷ []))
    r ← first_of rs
    as_source_variant r

  -- `GetFeatureVariant`
  unfoldable pub get_feature_variant : NameVariant → W → Result Error FeatureVariant
  unfolding first_of as_feature_variant sends
  get_feature_variant id w = do
    rs ← receive_all (Reads.get_feature_variants L sends w (ok id ∷ []))
    r ← first_of rs
    as_feature_variant r

  -- `GetLabelVariant`
  unfoldable pub get_label_variant : NameVariant → W → Result Error LabelVariant
  unfolding first_of as_label_variant sends
  get_label_variant id w = do
    rs ← receive_all (Reads.get_label_variants L sends w (ok id ∷ []))
    r ← first_of rs
    as_label_variant r

  -- `GetTrainingSetVariant`
  unfoldable pub get_training_set_variant : NameVariant → W → Result Error TrainingSetVariant
  unfolding first_of as_training_set_variant sends
  get_training_set_variant id w = do
    rs ← receive_all (Reads.get_training_set_variants L sends w (ok id ∷ []))
    r ← first_of rs
    as_training_set_variant r

  -- `GetProvider`, which `FetchProvider` calls.
  unfoldable pub get_provider : Text → W → Result Error Provider
  unfolding first_of as_provider sends
  get_provider name w = do
    rs ← receive_all (Reads.get_providers L sends w (ok name ∷ []))
    r ← first_of rs
    as_provider r

  -- `SetStatus`
  unfoldable pub set_status : Timestamp → ResourceId → Status → Text → Action Error W (Unit {0})
  set_status now id status message =
      set_resource_status L now id (record { status = status; error_message = message })
