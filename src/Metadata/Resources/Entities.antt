-- ===== src/Metadata/Resources/Entities.antt =====
-- metadata/metadata.go: entityResource.
use featureform.Metadata.Messages.{Consumer}
use featureform.Metadata.Types.{
  ResourceId, ResourceType, NameVariant, ResourceStatus, id_proto, feature_variant, label_variant,
  training_set_variant, entity,
}
use featureform.Common.{some, [], ◌∷◌, ◌++◌}

-- `ID`
unfoldable pub id : Consumer → ResourceId
id r = record { name = r.name; variant = []; type = entity }

-- `Notify`: the switch on the type of the other resource.
unfoldable pub notify_type : ResourceType → Consumer → NameVariant → Consumer
notify_type training_set_variant r key = record r { trainingsets = r.trainingsets ++ key ∷ [] }
notify_type feature_variant r key = record r { features = r.features ++ key ∷ [] }
notify_type label_variant r key = record r { labels = r.labels ++ key ∷ [] }
notify_type _ r key = r

-- `Notify`
unfoldable pub notify : Consumer → ResourceId → Consumer
unfolding notify_type
notify r that = notify_type that.type r (id_proto that)

-- `UpdateStatus`
unfoldable pub update_status : Consumer → ResourceStatus → Consumer
update_status r status = record r { status = some status }
