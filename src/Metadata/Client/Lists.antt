-- ===== src/Metadata/Client/Lists.antt =====
-- metadata/client.go: the calls that list or look up resources of one kind, and the loops that parse
-- the streams they answer with. A group is a feature, a label, a training set or a source.
use featureform.Common.{List, [], ◌∷◌, Result, ok, err, ◌>>=◌, map}
use featureform.Text.{Text}
use featureform.Metadata.Types.{NameVariant, Error, nil_dereference}
use featureform.Metadata.Messages.{
  Group, FeatureVariant, LabelVariant, TrainingSetVariant, Consumer, User, Provider,
}
use featureform.Metadata.Resource.{
  Resource, feature_resource, label_resource, training_set_resource, source_resource, user_resource,
  provider_resource, entity_resource, model_resource, feature_variant_resource,
  label_variant_resource, training_set_variant_resource,
}
use featureform.Metadata.Lookup.{ResourceLookup}
use featureform.Metadata.Handlers.Reads
use featureform.Metadata.Client.{receive_all, sends}

-- What a handler has sent, and how it ended.
abbrev pub Stream : Type 0
Stream = Result Error (Unit {0}) × List Resource

-- The messages of one kind, wrapped in order.
unfoldable pub all_of :
    {A : Type 0} → (Resource → Result Error A) → List Resource → Result Error (List A)
all_of wrap [] = ok []
all_of wrap (r ∷ rs) = do x ← wrap r; xs ← all_of wrap rs; ok (x ∷ xs)

-- The element at index 0, where an empty slice panics.
unfoldable pub first : {A : Type 0} → List A → Result Error A
first [] = err nil_dereference
first (x ∷ xs) = ok x

-- A `parse...Stream` loop.
unfoldable pub parse_stream :
    {A : Type 0} → (Resource → Result Error A) → Stream → Result Error (List A)
parse_stream wrap stream = do rs ← receive_all stream; all_of wrap rs

-- `parseFeatureStream`
unfoldable pub parse_feature_stream : Stream → Result Error (List Group)
parse_feature_stream =
    parse_stream λ r. elim r [ feature_resource x ↦ ok x | _ ↦ err nil_dereference ]

-- `parseLabelStream`
unfoldable pub parse_label_stream : Stream → Result Error (List Group)
parse_label_stream = parse_stream λ r. elim r [ label_resource x ↦ ok x | _ ↦ err nil_dereference ]

-- `parseTrainingSetStream`
unfoldable pub parse_training_set_stream : Stream → Result Error (List Group)
parse_training_set_stream =
    parse_stream λ r. elim r [ training_set_resource x ↦ ok x | _ ↦ err nil_dereference ]

-- `parseSourceStream`
unfoldable pub parse_source_stream : Stream → Result Error (List Group)
parse_source_stream =
    parse_stream λ r. elim r [ source_resource x ↦ ok x | _ ↦ err nil_dereference ]

-- `parseUserStream`
unfoldable pub parse_user_stream : Stream → Result Error (List User)
parse_user_stream = parse_stream λ r. elim r [ user_resource x ↦ ok x | _ ↦ err nil_dereference ]

-- `parseProviderStream`
unfoldable pub parse_provider_stream : Stream → Result Error (List Provider)
parse_provider_stream =
    parse_stream λ r. elim r [ provider_resource x ↦ ok x | _ ↦ err nil_dereference ]

-- `parseEntityStream`
unfoldable pub parse_entity_stream : Stream → Result Error (List Consumer)
parse_entity_stream =
    parse_stream λ r. elim r [ entity_resource x ↦ ok x | _ ↦ err nil_dereference ]

-- `parseModelStream`
unfoldable pub parse_model_stream : Stream → Result Error (List Consumer)
parse_model_stream = parse_stream λ r. elim r [ model_resource x ↦ ok x | _ ↦ err nil_dereference ]

-- `parseFeatureVariantStream`
unfoldable pub parse_feature_variant_stream : Stream → Result Error (List FeatureVariant)
parse_feature_variant_stream =
    parse_stream λ r. elim r [ feature_variant_resource x ↦ ok x | _ ↦ err nil_dereference ]

-- `parseLabelVariantStream`
unfoldable pub parse_label_variant_stream : Stream → Result Error (List LabelVariant)
parse_label_variant_stream =
    parse_stream λ r. elim r [ label_variant_resource x ↦ ok x | _ ↦ err nil_dereference ]

-- `parseTrainingSetVariantStream`
unfoldable pub parse_training_set_variant_stream : Stream → Result Error (List TrainingSetVariant)
parse_training_set_variant_stream =
    parse_stream λ r. elim r [ training_set_variant_resource x ↦ ok x | _ ↦ err nil_dereference ]

module _ {W : Type 0} (L : ResourceLookup W) where
  -- `ListFeatures`
  unfoldable pub list_features : W → Result Error (List Group)
  unfolding sends
  list_features w = parse_feature_stream (Reads.list_features L sends w)

  -- `GetFeatures`
  unfoldable pub get_features : List Text → W → Result Error (List Group)
  unfolding sends
  get_features names w = parse_feature_stream (Reads.get_features L sends w (map ok names))

  -- `GetFeature`
  unfoldable pub get_feature : Text → W → Result Error Group
  get_feature name w = do xs ← get_features (name ∷ []) w; first xs

  -- `ListLabels`
  unfoldable pub list_labels : W → Result Error (List Group)
  unfolding sends
  list_labels w = parse_label_stream (Reads.list_labels L sends w)

  -- `GetLabels`
  unfoldable pub get_labels : List Text → W → Result Error (List Group)
  unfolding sends
  get_labels names w = parse_label_stream (Reads.get_labels L sends w (map ok names))

  -- `GetLabel`
  unfoldable pub get_label : Text → W → Result Error Group
  get_label name w = do xs ← get_labels (name ∷ []) w; first xs

  -- `ListTrainingSets`
  unfoldable pub list_training_sets : W → Result Error (List Group)
  unfolding sends
  list_training_sets w = parse_training_set_stream (Reads.list_training_sets L sends w)

  -- `GetTrainingSets`
  unfoldable pub get_training_sets : List Text → W → Result Error (List Group)
  unfolding sends
  get_training_sets names w =
      parse_training_set_stream (Reads.get_training_sets L sends w (map ok names))

  -- `GetTrainingSet`
  unfoldable pub get_training_set : Text → W → Result Error Group
  get_training_set name w = do xs ← get_training_sets (name ∷ []) w; first xs

  -- `ListSources`
  unfoldable pub list_sources : W → Result Error (List Group)
  unfolding sends
  list_sources w = parse_source_stream (Reads.list_sources L sends w)

  -- `GetSources`
  unfoldable pub get_sources : List Text → W → Result Error (List Group)
  unfolding sends
  get_sources names w = parse_source_stream (Reads.get_sources L sends w (map ok names))

  -- `GetSource`
  unfoldable pub get_source : Text → W → Result Error Group
  get_source name w = do xs ← get_sources (name ∷ []) w; first xs

  -- `ListUsers`
  unfoldable pub list_users : W → Result Error (List User)
  unfolding sends
  list_users w = parse_user_stream (Reads.list_users L sends w)

  -- `GetUsers`
  unfoldable pub get_users : List Text → W → Result Error (List User)
  unfolding sends
  get_users names w = parse_user_stream (Reads.get_users L sends w (map ok names))

  -- `GetUser`
  unfoldable pub get_user : Text → W → Result Error User
  get_user name w = do xs ← get_users (name ∷ []) w; first xs

  -- `ListProviders`
  unfoldable pub list_providers : W → Result Error (List Provider)
  unfolding sends
  list_providers w = parse_provider_stream (Reads.list_providers L sends w)

  -- `GetProviders`
  unfoldable pub get_providers : List Text → W → Result Error (List Provider)
  unfolding sends
  get_providers names w = parse_provider_stream (Reads.get_providers L sends w (map ok names))

  -- `ListEntities`
  unfoldable pub list_entities : W → Result Error (List Consumer)
  unfolding sends
  list_entities w = parse_entity_stream (Reads.list_entities L sends w)

  -- `GetEntities`
  unfoldable pub get_entities : List Text → W → Result Error (List Consumer)
  unfolding sends
  get_entities names w = parse_entity_stream (Reads.get_entities L sends w (map ok names))

  -- `GetEntity`
  unfoldable pub get_entity : Text → W → Result Error Consumer
  get_entity name w = do xs ← get_entities (name ∷ []) w; first xs

  -- `ListModels`
  unfoldable pub list_models : W → Result Error (List Consumer)
  unfolding sends
  list_models w = parse_model_stream (Reads.list_models L sends w)

  -- `GetModels`
  unfoldable pub get_models : List Text → W → Result Error (List Consumer)
  unfolding sends
  get_models names w = parse_model_stream (Reads.get_models L sends w (map ok names))

  -- `GetModel`
  unfoldable pub get_model : Text → W → Result Error Consumer
  get_model name w = do xs ← get_models (name ∷ []) w; first xs

  -- `GetFeatureVariants`
  unfoldable pub get_feature_variants : List NameVariant → W → Result Error (List FeatureVariant)
  unfolding sends
  get_feature_variants ids w =
      parse_feature_variant_stream (Reads.get_feature_variants L sends w (map ok ids))

  -- `GetLabelVariants`
  unfoldable pub get_label_variants : List NameVariant → W → Result Error (List LabelVariant)
  unfolding sends
  get_label_variants ids w =
      parse_label_variant_stream (Reads.get_label_variants L sends w (map ok ids))

  -- `GetTrainingSetVariants`
  unfoldable pub get_training_set_variants :
      List NameVariant → W → Result Error (List TrainingSetVariant)
  unfolding sends
  get_training_set_variants ids w =
      parse_training_set_variant_stream (Reads.get_training_set_variants L sends w (map ok ids))
