-- ===== src/Metadata/Resources/TrainingSetVariants.antt =====
-- metadata/metadata.go: trainingSetVariantResource.
use featureform.Metadata.Messages.{TrainingSetVariant, Timestamp}
use featureform.Metadata.Types.{
  ResourceId, ResourceStatus, Error, nil_dereference, training_set, feature_variant, label_variant,
  training_set_variant, provider, user,
}
use featureform.Text.{Text}
use featureform.Common.{none, some, List, [], ◌∷◌, map, Result, ok, err}

-- `ID`
unfoldable pub id : TrainingSetVariant → ResourceId
id r = record { name = r.name; variant = r.variant; type = training_set_variant }

-- The ids that `Dependencies` looks up. It reads through `serialized.Label`, which may be nil.
unfoldable pub dependency_ids : TrainingSetVariant → Result Error (List ResourceId)
dependency_ids r = elim r.label [
  | none ↦ err nil_dereference
  | some l ↦ ok (
      record { name = r.owner; variant = []; type = user }
      ∷ record { name = r.provider; variant = []; type = provider }
      ∷ record { name = l.name; variant = l.variant; type = label_variant }
      ∷ record { name = r.name; variant = []; type = training_set }
      ∷ map (λ f. record { name = f.name; variant = f.variant; type = feature_variant }) r.features)
]

-- `UpdateStatus`
unfoldable pub update_status : Timestamp → TrainingSetVariant → ResourceStatus → TrainingSetVariant
update_status now r status = record r { last_updated = some now; status = some status }

-- `UpdateSchedule`
unfoldable pub update_schedule : TrainingSetVariant → Text → TrainingSetVariant
update_schedule r schedule = record r { schedule = schedule }
