-- ===== src/Metadata/Resources/FeatureVariants.antt =====
-- metadata/metadata.go: featureVariantResource.
use featureform.Metadata.Messages.{FeatureVariant, Timestamp}
use featureform.Metadata.Types.{
  ResourceId, ResourceStatus, Error, id_proto, nil_dereference, type_eq, feature, feature_variant,
  training_set_variant, source_variant, provider, entity, user,
}
use featureform.Text.{Text}
use featureform.Common.{none, some, List, [], ◌∷◌, ◌++◌, if◌then◌else◌, Result, ok, err}

-- `ID`
unfoldable pub id : FeatureVariant → ResourceId
id r = record { name = r.name; variant = r.variant; type = feature_variant }

-- The ids that `Dependencies` looks up. It reads through `serialized.Source`, which may be nil.
unfoldable pub dependency_ids : FeatureVariant → Result Error (List ResourceId)
dependency_ids r = elim r.source [
  | none ↦ err nil_dereference
  | some s ↦ ok (
      record { name = s.name; variant = s.variant; type = source_variant }
      ∷ record { name = r.entity; variant = []; type = entity }
      ∷ record { name = r.owner; variant = []; type = user }
      ∷ record { name = r.provider; variant = []; type = provider }
      ∷ record { name = r.name; variant = []; type = feature }
      ∷ [])
]

-- `Notify`, for the one operation that there is, `create_op`.
unfoldable pub notify : FeatureVariant → ResourceId → FeatureVariant
notify r that =
    if type_eq that.type training_set_variant
    then record r { trainingsets = r.trainingsets ++ id_proto that ∷ [] }
    else r

-- `UpdateStatus`
unfoldable pub update_status : Timestamp → FeatureVariant → ResourceStatus → FeatureVariant
update_status now r status = record r { last_updated = some now; status = some status }

-- `UpdateSchedule`
unfoldable pub update_schedule : FeatureVariant → Text → FeatureVariant
update_schedule r schedule = record r { schedule = schedule }
