-- ===== src/Metadata/Resource.antt =====
-- metadata/metadata.go: the interface `Resource`, as one type with a constructor for each Go type
-- that implements it, its methods by dispatch, and `isDirectDependency`.
use featureform.Common.{Bool, List, [], is_some, Result, ok, err, ◌>>=◌, Map, find}
use featureform.Text.{Text}
use featureform.Metadata.Types.{
  ResourceId, ResourceStatus, Error, not_implemented, id_keys, feature, label, training_set, source,
}
use featureform.Metadata.Messages.{
  Timestamp, Group, FeatureVariant, LabelVariant, Provider, TrainingSetVariant, Consumer, User,
  SourceVariant,
}
use featureform.Metadata.Resources.Groups
use featureform.Metadata.Resources.SourceVariants
use featureform.Metadata.Resources.FeatureVariants
use featureform.Metadata.Resources.LabelVariants
use featureform.Metadata.Resources.TrainingSetVariants
use featureform.Metadata.Resources.Models
use featureform.Metadata.Resources.Entities
use featureform.Metadata.Resources.Users
use featureform.Metadata.Resources.Providers

pub data Resource : Type 0 where
  feature_resource label_resource training_set_resource source_resource : Group → Resource
  feature_variant_resource : FeatureVariant → Resource
  label_variant_resource : LabelVariant → Resource
  training_set_variant_resource : TrainingSetVariant → Resource
  source_variant_resource : SourceVariant → Resource
  model_resource entity_resource : Consumer → Resource
  user_resource : User → Resource
  provider_resource : Provider → Resource

-- `ID()`
unfoldable pub resource_id : Resource → ResourceId
unfolding Groups.id SourceVariants.id FeatureVariants.id LabelVariants.id TrainingSetVariants.id
    Models.id Entities.id Users.id Providers.id
resource_id (feature_resource g) = Groups.id feature g
resource_id (label_resource g) = Groups.id label g
resource_id (training_set_resource g) = Groups.id training_set g
resource_id (source_resource g) = Groups.id source g
resource_id (feature_variant_resource r) = FeatureVariants.id r
resource_id (label_variant_resource r) = LabelVariants.id r
resource_id (training_set_variant_resource r) = TrainingSetVariants.id r
resource_id (source_variant_resource r) = SourceVariants.id r
resource_id (model_resource r) = Models.id r
resource_id (entity_resource r) = Entities.id r
resource_id (user_resource r) = Users.id r
resource_id (provider_resource r) = Providers.id r

-- `Schedule()`
unfoldable pub schedule : Resource → Text
schedule (feature_variant_resource r) = r.schedule
schedule (training_set_variant_resource r) = r.schedule
schedule (source_variant_resource r) = r.schedule
schedule _ = []

-- The ids that `Dependencies` hands to `Submap`.
unfoldable pub dependency_ids : Resource → Result Error (List ResourceId)
unfolding SourceVariants.dependency_ids FeatureVariants.dependency_ids LabelVariants.dependency_ids
    TrainingSetVariants.dependency_ids Models.dependency_ids
dependency_ids (feature_variant_resource r) = FeatureVariants.dependency_ids r
dependency_ids (label_variant_resource r) = LabelVariants.dependency_ids r
dependency_ids (training_set_variant_resource r) = TrainingSetVariants.dependency_ids r
dependency_ids (source_variant_resource r) = ok (SourceVariants.dependency_ids r)
dependency_ids (model_resource r) = ok (Models.dependency_ids r)
dependency_ids _ = ok []

-- `Dependencies(lookup)`: the resources that depend on nothing answer with an empty map, the others
-- with the lookup's `Submap`.
unfoldable pub dependencies :
    (List ResourceId → Result Error (Map ResourceId Resource))
    → Resource
    → Result Error (Map ResourceId Resource)
dependencies submap (feature_resource g) = ok []
dependencies submap (label_resource g) = ok []
dependencies submap (training_set_resource g) = ok []
dependencies submap (source_resource g) = ok []
dependencies submap (entity_resource r) = ok []
dependencies submap (user_resource r) = ok []
dependencies submap (provider_resource r) = ok []
dependencies submap r = do ids ← dependency_ids r; submap ids

-- `isDirectDependency(lookup, dependency, parent)`
unfoldable pub is_direct_dependency :
    (List ResourceId → Result Error (Map ResourceId Resource))
    → Resource
    → Resource
    → Result Error Bool
is_direct_dependency submap dependency parent = do
  deps ← dependencies submap parent
  ok (is_some (find deps (resource_id dependency)))

-- `Notify(lookup, create_op, that)`: the resource as the call leaves it.
unfoldable pub notify :
    (List ResourceId → Result Error (Map ResourceId Resource))
    → Resource
    → Resource
    → Result Error Resource
notify submap (feature_resource g) that =
    ok (feature_resource (Groups.notify_feature g (resource_id that)))
notify submap (label_resource g) that =
    ok (label_resource (Groups.notify_label g (resource_id that)))
notify submap (training_set_resource g) that =
    ok (training_set_resource (Groups.notify_training_set g (resource_id that)))
notify submap (source_resource g) that =
    ok (source_resource (Groups.notify_source g (resource_id that)))
notify submap (feature_variant_resource r) that =
    ok (feature_variant_resource (FeatureVariants.notify r (resource_id that)))
notify submap (label_variant_resource r) that =
    ok (label_variant_resource (LabelVariants.notify r (resource_id that)))
notify submap (training_set_variant_resource r) that = ok (training_set_variant_resource r)
notify submap (source_variant_resource r) that =
    ok (source_variant_resource (SourceVariants.notify r (resource_id that)))
notify submap (model_resource r) that = ok (model_resource r)
notify submap (entity_resource r) that = ok (entity_resource (Entities.notify r (resource_id that)))
notify submap (user_resource r) that = do
  u ← Users.notify (is_direct_dependency submap (user_resource r) that) r (resource_id that)
  ok (user_resource u)
notify submap (provider_resource r) that = do
  p ← Providers.notify (is_direct_dependency submap (provider_resource r) that) r (resource_id that)
  ok (provider_resource p)

-- `UpdateStatus(status)`; `now` is what `tspb.Now()` reads. It returns no error.
unfoldable pub update_status : Timestamp → Resource → ResourceStatus → Resource
unfolding Groups.update_status SourceVariants.update_status FeatureVariants.update_status
    LabelVariants.update_status TrainingSetVariants.update_status Models.update_status
    Entities.update_status Users.update_status Providers.update_status
update_status now (feature_resource g) st = feature_resource (Groups.update_status g st)
update_status now (label_resource g) st = label_resource (Groups.update_status g st)
update_status now (training_set_resource g) st = training_set_resource (Groups.update_status g st)
update_status now (source_resource g) st = source_resource (Groups.update_status g st)
update_status now (feature_variant_resource r) st =
    feature_variant_resource (FeatureVariants.update_status now r st)
update_status now (label_variant_resource r) st =
    label_variant_resource (LabelVariants.update_status r st)
update_status now (training_set_variant_resource r) st =
    training_set_variant_resource (TrainingSetVariants.update_status now r st)
update_status now (source_variant_resource r) st =
    source_variant_resource (SourceVariants.update_status now r st)
update_status now (model_resource r) st = model_resource (Models.update_status r st)
update_status now (entity_resource r) st = entity_resource (Entities.update_status r st)
update_status now (user_resource r) st = user_resource (Users.update_status r st)
update_status now (provider_resource r) st = provider_resource (Providers.update_status r st)

-- `UpdateSchedule(schedule)`
unfoldable pub update_schedule : Resource → Text → Result Error Resource
unfolding SourceVariants.update_schedule FeatureVariants.update_schedule
    TrainingSetVariants.update_schedule
update_schedule (feature_variant_resource r) s =
    ok (feature_variant_resource (FeatureVariants.update_schedule r s))
update_schedule (training_set_variant_resource r) s =
    ok (training_set_variant_resource (TrainingSetVariants.update_schedule r s))
update_schedule (source_variant_resource r) s =
    ok (source_variant_resource (SourceVariants.update_schedule r s))
update_schedule _ s = err not_implemented
