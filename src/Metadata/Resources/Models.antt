-- ===== src/Metadata/Resources/Models.antt =====
-- metadata/metadata.go: modelResource.
use featureform.Metadata.Messages.{Consumer}
use featureform.Metadata.Types.{
  ResourceId, ResourceStatus, feature_variant, label_variant, training_set_variant, model,
}
use featureform.Common.{some, List, [], ◌++◌, map}

-- `ID`
unfoldable pub id : Consumer → ResourceId
id r = record { name = r.name; variant = []; type = model }

-- The ids that `Dependencies` looks up.
unfoldable pub dependency_ids : Consumer → List ResourceId
dependency_ids r =
    map (λ f. record { name = f.name; variant = f.variant; type = feature_variant }) r.features
    ++ (map (λ l. record { name = l.name; variant = l.variant; type = label_variant }) r.labels
        ++ map (λ t. record { name = t.name; variant = t.variant; type = training_set_variant })
            r.trainingsets)

-- `UpdateStatus`
unfoldable pub update_status : Consumer → ResourceStatus → Consumer
update_status r status = record r { status = some status }
