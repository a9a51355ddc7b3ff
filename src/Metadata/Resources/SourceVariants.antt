-- ===== src/Metadata/Resources/SourceVariants.antt =====
-- metadata/metadata.go: sourceVariantResource.
use featureform.Metadata.Messages.{SourceVariant, Timestamp}
use featureform.Metadata.Types.{
  ResourceId, ResourceType, NameVariant, ResourceStatus, id_proto, source, feature_variant,
  label_variant, training_set_variant, source_variant, provider, user,
}
use featureform.Text.{Text}
use featureform.Common.{some, List, [], ◌∷◌, ◌++◌}

-- `ID`
unfoldable pub id : SourceVariant → ResourceId
id r = record { name = r.name; variant = r.variant; type = source_variant }

-- The ids that `Dependencies` looks up.
unfoldable pub dependency_ids : SourceVariant → List ResourceId
dependency_ids r =
    record { name = r.owner; variant = []; type = user }
    ∷ record { name = r.provider; variant = []; type = provider }
    ∷ record { name = r.name; variant = []; type = source }
    ∷ []

-- `Notify`: the switch on the type of the other resource.
unfoldable pub notify_type : ResourceType → SourceVariant → NameVariant → SourceVariant
notify_type training_set_variant r key = record r { trainingsets = r.trainingsets ++ key ∷ [] }
notify_type feature_variant r key = record r { features = r.features ++ key ∷ [] }
notify_type label_variant r key = record r { labels = r.labels ++ key ∷ [] }
notify_type _ r key = r

-- `Notify`
unfoldable pub notify : SourceVariant → ResourceId → SourceVariant
unfolding notify_type
notify r that = notify_type that.type r (id_proto that)

-- `UpdateStatus`
unfoldable pub update_status : Timestamp → SourceVariant → ResourceStatus → SourceVariant
update_status now r status = record r { last_updated = some now; status = some status }

-- `UpdateSchedule`
unfoldable pub update_schedule : SourceVariant → Text → SourceVariant
update_schedule r schedule = record r { schedule = schedule }
