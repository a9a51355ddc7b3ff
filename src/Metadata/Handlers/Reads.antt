-- ===== src/Metadata/Handlers/Reads.antt =====
-- metadata/metadata.go: the RPC handlers that read, `List...` and `Get...`. A stream delivers names, or
-- names with variants, or the error of `Recv`; `send` tells what sending one more resource reports.
use featureform.Common.{List, [], ◌∷◌, Result, ok, err}
use featureform.Text.{Text}
use featureform.Metadata.Types.{
  ResourceId, ResourceType, NameVariant, Error, feature, feature_variant, label, label_variant,
  training_set, training_set_variant, source, source_variant, user, provider, entity, model,
}
use featureform.Metadata.Resource.{Resource}
use featureform.Metadata.Lookup.{ResourceLookup}
use featureform.Metadata.Handlers.{generic_get, generic_list}

abbrev Send : Type 0
Send = List Resource → Resource → Result Error (Unit {0})

abbrev Sent : Type 0
Sent = Result Error (Unit {0}) × List Resource

-- The ids that `genericGet` makes of a `nameStream`.
abbrev pub name_ids : ResourceType → List (Result Error Text) → List (Result Error ResourceId)
name_ids t [] = []
name_ids t (err e ∷ requests) = err e ∷ name_ids t requests
name_ids t (ok name ∷ requests) =
    ok (record { name = name; variant = []; type = t }) ∷ name_ids t requests

-- The ids that `genericGet` makes of a `variantStream`.
abbrev pub variant_ids :
    ResourceType → List (Result Error NameVariant) → List (Result Error ResourceId)
variant_ids t [] = []
variant_ids t (err e ∷ requests) = err e ∷ variant_ids t requests
variant_ids t (ok id ∷ requests) =
    ok (record { name = id.name; variant = id.variant; type = t }) ∷ variant_ids t requests

module _ {S : Type 0} (L : ResourceLookup S) (send : Send) (s : S) where
  -- `ListFeatures`
  unfoldable pub list_features : Sent
  list_features = generic_list L send s feature

  -- `ListLabels`
  unfoldable pub list_labels : Sent
  list_labels = generic_list L send s label

  -- `ListTrainingSets`
  unfoldable pub list_training_sets : Sent
  list_training_sets = generic_list L send s training_set

  -- `ListSources`
  unfoldable pub list_sources : Sent
  list_sources = generic_list L send s source

  -- `ListUsers`
  unfoldable pub list_users : Sent
  list_users = generic_list L send s user

  -- `ListProviders`
  unfoldable pub list_providers : Sent
  list_providers = generic_list L send s provider

  -- `ListEntities`
  unfoldable pub list_entities : Sent
  list_entities = generic_list L send s entity

  -- `ListModels`
  unfoldable pub list_models : Sent
  list_models = generic_list L send s model

  -- `GetFeatures`
  unfoldable pub get_features : List (Result Error Text) → Sent
  get_features requests = generic_get L send s [] (name_ids feature requests)

  -- `GetFeatureVariants`
  unfoldable pub get_feature_variants : List (Result Error NameVariant) → Sent
  get_feature_variants requests = generic_get L send s [] (variant_ids feature_variant requests)

  -- `GetLabels`
  unfoldable pub get_labels : List (Result Error Text) → Sent
  get_labels requests = generic_get L send s [] (name_ids label requests)

  -- `GetLabelVariants`
  unfoldable pub get_label_variants : List (Result Error NameVariant) → Sent
  get_label_variants requests = generic_get L send s [] (variant_ids label_variant requests)

  -- `GetTrainingSets`
  unfoldable pub get_training_sets : List (Result Error Text) → Sent
  get_training_sets requests = generic_get L send s [] (name_ids training_set requests)

  -- `GetTrainingSetVariants`
  unfoldable pub get_training_set_variants : List (Result Error NameVariant) → Sent
  get_training_set_variants requests =
      generic_get L send s [] (variant_ids training_set_variant requests)

  -- `GetSources`
  unfoldable pub get_sources : List (Result Error Text) → Sent
  get_sources requests = generic_get L send s [] (name_ids source requests)

  -- `GetSourceVariants`
  unfoldable pub get_source_variants : List (Result Error NameVariant) → Sent
  get_source_variants requests = generic_get L send s [] (variant_ids source_variant requests)

  -- `GetUsers`
  unfoldable pub get_users : List (Result Error Text) → Sent
  get_users requests = generic_get L send s [] (name_ids user requests)

  -- `GetProviders`
  unfoldable pub get_providers : List (Result Error Text) → Sent
  get_providers requests = generic_get L send s [] (name_ids provider requests)

  -- `GetEntities`
  unfoldable pub get_entities : List (Result Error Text) → Sent
  get_entities requests = generic_get L send s [] (name_ids entity requests)

  -- `GetModels`
  unfoldable pub get_models : List (Result Error Text) → Sent
  get_models requests = generic_get L send s [] (name_ids model requests)
