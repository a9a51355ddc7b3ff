-- ===== src/Metadata/Resources/Groups.antt =====
-- metadata/metadata.go: sourceResource, featureResource, labelResource and trainingSetResource,
-- whose methods differ in the types that they name.
use featureform.Metadata.Messages.{Group}
use featureform.Metadata.Types.{
  ResourceId, ResourceType, ResourceStatus, type_eq, feature_variant, label_variant,
  training_set_variant, source_variant,
}
use featureform.Text.{text_eq}
use featureform.Common.{◌&&◌, some, [], ◌∷◌, ◌++◌, if◌then◌else◌}

-- `ID` of the group of type `t`.
unfoldable pub id : ResourceType → Group → ResourceId
id t g = record { name = g.name; variant = []; type = t }

-- `Notify`: a new variant of the group joins its variants.
notify : ResourceType → Group → ResourceId → Group
notify variant_type g that =
    if type_eq that.type variant_type && text_eq that.name g.name
    then record g { variants = g.variants ++ that.variant ∷ [] }
    else g

-- `sourceResource.Notify`
unfoldable pub notify_source : Group → ResourceId → Group
unfolding notify
notify_source = notify source_variant

-- `featureResource.Notify`
unfoldable pub notify_feature : Group → ResourceId → Group
unfolding notify
notify_feature = notify feature_variant

-- `labelResource.Notify`
unfoldable pub notify_label : Group → ResourceId → Group
unfolding notify
notify_label = notify label_variant

-- `trainingSetResource.Notify`
unfoldable pub notify_training_set : Group → ResourceId → Group
unfolding notify
notify_training_set = notify training_set_variant

-- `UpdateStatus`
unfoldable pub update_status : Group → ResourceStatus → Group
update_status g status = record g { status = some status }
