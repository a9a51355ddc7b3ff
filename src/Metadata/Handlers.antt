-- ===== src/Metadata/Handlers.antt =====
-- metadata/metadata.go: the RPC handlers of `MetadataServer`, over any lookup. What a handler logs
-- is left out; `now` is what the clock reads, and `order` the order in which Go ranges over a map.
pub mod Groups
pub mod Reads
use featureform.Common.{
  Bool, Option, none, some, List, [], ◌∷◌, ◌++◌, Result, ok, err, ◌>>=◌, Action,
}
use featureform.Text.{Text}
use featureform.Metadata.Types.{ResourceId, ResourceType, ResourceStatus, Error}
use featureform.Metadata.Messages.{
  Timestamp, Group, FeatureVariant, LabelVariant, TrainingSetVariant, SourceVariant, Consumer, User,
  Provider,
}
use featureform.Metadata.Resource.{
  Resource, feature_resource, label_resource, training_set_resource, source_resource,
  feature_variant_resource, label_variant_resource, training_set_variant_resource,
  source_variant_resource, model_resource, entity_resource, user_resource, provider_resource,
}
use featureform.Metadata.Lookup.{ResourceLookup}
use featureform.Metadata.Server.{generic_create}

-- The group that the Create handlers make for the first of its variants.
abbrev pub first_group : Text → Text → Group
first_group name variant = record {
  name = name;
  status = none;
  default_variant = variant;
  variants = [];
}

module _ {S : Type 0} (L : ResourceLookup S) (order : List Resource → List Resource) where
  -- `CreateFeatureVariant`
  unfoldable pub create_feature_variant : Timestamp → FeatureVariant → Action Error S (Unit {0})
  create_feature_variant now variant =
      generic_create L order (feature_variant_resource (record variant { created = some now }))
        (some (λ n v. feature_resource (first_group n v)))

  -- `CreateLabelVariant`
  unfoldable pub create_label_variant : Timestamp → LabelVariant → Action Error S (Unit {0})
  create_label_variant now variant =
      generic_create L order (label_variant_resource (record variant { created = some now }))
        (some (λ n v. label_resource (first_group n v)))

  -- `CreateTrainingSetVariant`
  unfoldable pub create_training_set_variant :
      Timestamp → TrainingSetVariant → Action Error S (Unit {0})
  create_training_set_variant now variant =
      generic_create L order (training_set_variant_resource (record variant { created = some now }))
        (some (λ n v. training_set_resource (first_group n v)))

  -- `CreateSourceVariant`
  unfoldable pub create_source_variant : Timestamp → SourceVariant → Action Error S (Unit {0})
  create_source_variant now variant =
      generic_create L order (source_variant_resource (record variant { created = some now }))
        (some (λ n v. source_resource (first_group n v)))

  -- `CreateUser`
  unfoldable pub create_user : User → Action Error S (Unit {0})
  create_user user = generic_create L order (user_resource user) none

  -- `CreateProvider`
  unfoldable pub create_provider : Provider → Action Error S (Unit {0})
  create_provider provider = generic_create L order (provider_resource provider) none

  -- `CreateEntity`
  unfoldable pub create_entity : Consumer → Action Error S (Unit {0})
  create_entity entity = generic_create L order (entity_resource entity) none

  -- `CreateModel`
  unfoldable pub create_model : Consumer → Action Error S (Unit {0})
  create_model model = generic_create L order (model_resource model) none

module _ {S : Type 0} (L : ResourceLookup S) where
  -- `SetResourceStatus`
  unfoldable pub set_resource_status :
      Timestamp → ResourceId → ResourceStatus → Action Error S (Unit {0})
  set_resource_status now id status = L.set_status now id status

  -- `RequestScheduleChange`
  unfoldable pub request_schedule_change : ResourceId → Text → Action Error S (Unit {0})
  request_schedule_change id schedule = L.set_schedule id schedule

  -- The loop of `genericGet` over what the stream delivers: an id for each request, or the error of
  -- `Recv`; the end of the list is io.EOF. The second part of the result is what was sent, and `send`
  -- tells what sending one more reports.
  unfoldable pub generic_get :
      (List Resource → Resource → Result Error (Unit {0}))
      → S
      → List Resource
      → List (Result Error ResourceId)
      → Result Error (Unit {0}) × List Resource
  generic_get send s sent [] = (ok tt, sent)
  generic_get send s sent (err e ∷ requests) = (err e, sent)
  generic_get send s sent (ok id ∷ requests) = elim (L.lookup id s) [
    | err e ↦ (err e, sent)
    | ok r ↦ elim (send sent r) [
      | err e ↦ (err e, sent)
      | ok u ↦ generic_get send s (sent ++ r ∷ []) requests
    ]
  ]

  send_all :
      (List Resource → Resource → Result Error (Unit {0}))
      → List Resource
      → List Resource
      → Result Error (Unit {0}) × List Resource
  send_all send sent [] = (ok tt, sent)
  send_all send sent (r ∷ rest) = elim (send sent r) [
    | err e ↦ (err e, sent)
    | ok u ↦ send_all send (sent ++ r ∷ []) rest
  ]

  -- `genericList`
  unfoldable pub generic_list :
      (List Resource → Resource → Result Error (Unit {0}))
      → S
      → ResourceType
      → Result Error (Unit {0}) × List Resource
  unfolding send_all
  generic_list send s t = elim (L.list_for_type t s) [
    | err e ↦ (err e, [])
    | ok resources ↦ send_all send [] resources
  ]
