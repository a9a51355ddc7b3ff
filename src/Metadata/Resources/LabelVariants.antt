-- ===== src/Metadata/Resources/LabelVariants.antt =====
-- metadata/metadata.go: labelVariantResource.
use featureform.Metadata.Messages.{LabelVariant}
use featureform.Metadata.Types.{
  ResourceId, ResourceStatus, Error, id_proto, nil_dereference, type_eq, label, label_variant,
  training_set_variant, source_variant, provider, entity, user,
}
use featureform.Common.{none, some, List, [], ◌∷◌, ◌++◌, if◌then◌else◌, Result, ok, err}

-- `ID`
unfoldable pub id : LabelVariant → ResourceId
id r = record { name = r.name; variant = r.variant; type = label_variant }

-- The ids that `Dependencies` looks up. It reads through `serialized.Source`, which may be nil.
unfoldable pub dependency_ids : LabelVariant → Result Error (List ResourceId)
dependency_ids r = elim r.source [
  | none ↦ err nil_dereference
  | some s ↦ ok (
      record { name = s.name; variant = s.variant; type = source_variant }
      ∷ record { name = r.entity; variant = []; type = entity }
      ∷ record { name = r.owner; variant = []; type = user }
      ∷ record { name = r.provider; variant = []; type = provider }
      ∷ record { name = r.name; variant = []; type = label }
      ∷ [])
]

-- `Notify`, for the one operation that there is, `create_op`.
unfoldable pub notify : LabelVariant → ResourceId → LabelVariant
notify r that =
    if type_eq that.type training_set_variant
    then record r { trainingsets = r.trainingsets ++ id_proto that ∷ [] }
    else r

-- `UpdateStatus`
unfoldable pub update_status : LabelVariant → ResourceStatus → LabelVariant
update_status r status = record r { status = some status }
