-- ===== src/Metadata/Resources/Providers.antt =====
-- metadata/metadata.go: providerResource.
use featureform.Metadata.Messages.{Provider}
use featureform.Metadata.Types.{
  ResourceId, ResourceType, NameVariant, ResourceStatus, Error, id_proto, feature_variant,
  label_variant, training_set_variant, source_variant, provider,
}
use featureform.Common.{Bool, some, [], ◌∷◌, ◌++◌, if◌then◌else◌, Result, ok, ◌>>=◌}

-- `ID`
unfoldable pub id : Provider → ResourceId
id r = record { name = r.name; variant = []; type = provider }

-- `Notify`: the switch on the type of the other resource.
unfoldable pub notify_type : ResourceType → Provider → NameVariant → Provider
notify_type training_set_variant r key = record r { trainingsets = r.trainingsets ++ key ∷ [] }
notify_type feature_variant r key = record r { features = r.features ++ key ∷ [] }
notify_type label_variant r key = record r { labels = r.labels ++ key ∷ [] }
notify_type source_variant r key = record r { sources = r.sources ++ key ∷ [] }
notify_type _ r key = r

-- `Notify`. `is_dep` is what `isDirectDependency` answered.
unfoldable pub notify : Result Error Bool → Provider → ResourceId → Result Error Provider
unfolding notify_type
notify is_dep r that = do
  dep ← is_dep
  ok (if dep then notify_type that.type r (id_proto that) else r)

-- `UpdateStatus`
unfoldable pub update_status : Provider → ResourceStatus → Provider
update_status r status = record r { status = some status }
