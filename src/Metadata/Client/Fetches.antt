-- ===== src/Metadata/Client/Fetches.antt =====
-- metadata/client.go: what a resource fetches of the resources it names.
use featureform.Common.{Option, none, some, List, [], ◌∷◌, Result, ◌>>=◌, map}
use featureform.Text.{Text}
use featureform.Metadata.Types.{NameVariant, ResourceStatus, Error}
use featureform.Metadata.Messages.{
  Group, FeatureVariant, LabelVariant, TrainingSetVariant, SourceVariant, Provider,
}
use featureform.Metadata.Lookup.{ResourceLookup}
use featureform.Metadata.Client
use featureform.Metadata.Client.{name_variant_in}
use featureform.Metadata.Client.Lists.{
  get_feature_variants, get_label_variants, get_training_set_variants, first,
}

-- `parseNameVariants`
unfoldable parse_name_variants : List NameVariant → List NameVariant
parse_name_variants = map λ p. record { name = p.name; variant = p.variant }

-- `NameVariants.Names`
unfoldable names_of : List NameVariant → List Text
names_of = map λ nv. nv.name

-- `NameVariants` of a group: its name with each of its variants.
unfoldable pub name_variants : Group → List NameVariant
name_variants g = map (λ v. record { name = g.name; variant = v }) g.variants

-- `Error` of a resource: empty where the message has no status.
unfoldable error_in : Option ResourceStatus → Text
error_in none = []
error_in (some s) = s.error_message

module _ {W : Type 0} (L : ResourceLookup W) where
  -- `Feature.FetchVariants`
  unfoldable feature_fetch_variants : Group → W → Result Error (List FeatureVariant)
  feature_fetch_variants g = get_feature_variants L (name_variants g)

  -- `Label.FetchVariants`
  unfoldable label_fetch_variants : Group → W → Result Error (List LabelVariant)
  label_fetch_variants g = get_label_variants L (name_variants g)

  -- `TrainingSet.FetchVariants`
  unfoldable training_set_fetch_variants : Group → W → Result Error (List TrainingSetVariant)
  training_set_fetch_variants g = get_training_set_variants L (name_variants g)

  -- `Source.FetchVariants`
  unfoldable pub source_fetch_variants : Group → W → Result Error (List SourceVariant)
  source_fetch_variants g = Client.get_source_variants L (name_variants g)

  -- `FetchTrainingSets`, of a message with these training sets.
  unfoldable fetch_training_sets : List NameVariant → W → Result Error (List TrainingSetVariant)
  fetch_training_sets ps = get_training_set_variants L (parse_name_variants ps)

  -- `FetchLabels`, of a message with these labels.
  unfoldable fetch_labels : List NameVariant → W → Result Error (List LabelVariant)
  fetch_labels ps = get_label_variants L (parse_name_variants ps)

  -- `FetchFeatures`, of a message with these features.
  unfoldable fetch_features : List NameVariant → W → Result Error (List FeatureVariant)
  fetch_features ps = get_feature_variants L (parse_name_variants ps)

  -- `FetchSources`, of a message with these sources.
  unfoldable fetch_sources : List NameVariant → W → Result Error (List SourceVariant)
  fetch_sources ps = Client.get_source_variants L (parse_name_variants ps)

  -- `FetchSource`, which reads through a nil pointer where the message has no source.
  unfoldable fetch_source : Option NameVariant → W → Result Error SourceVariant
  fetch_source p w = do id ← name_variant_in p; Client.get_source_variant L id w

  -- `FetchProvider`
  unfoldable fetch_provider : Text → W → Result Error Provider
  fetch_provider name = Client.get_provider L name

  -- `TrainingSetVariant.FetchLabel`
  unfoldable fetch_label : TrainingSetVariant → W → Result Error LabelVariant
  fetch_label t w = do
    id ← name_variant_in t.label
    labels ← get_label_variants L (id ∷ []) w
    first labels
