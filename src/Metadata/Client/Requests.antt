-- ===== src/Metadata/Client/Requests.antt =====
-- metadata/client.go: the requests that create resources, from their definitions. `now` is what the
-- service's clock reads, and `order` the order in which Go ranges over a map there.
use featureform.Common.{Option, none, some, List, [], ◌∷◌, Result, ok, err, Action}
use featureform.Text.{Text, bytes}
use featureform.Metadata.Types.{
  NameVariant, ResourceId, ResourceStatus, no_status, created, Error, failure,
}
use featureform.Metadata.Messages.{
  Timestamp, Columns, Consumer, Definition, transformation, primary_data,
}
use featureform.Metadata.Resource.{Resource}
use featureform.Metadata.Lookup.{ResourceLookup}
use featureform.Metadata.Handlers
use featureform.Metadata.Handlers.{request_schedule_change}

-- `ResourceVariantColumns`
pub record ResourceVariantColumns : Type 0 where
  pub entity : Text
  pub value : Text
  pub ts : Text
  pub source : Text

-- The `Location` of a feature or a label: columns, nil or a value of any other type.
pub data Location : Type 0 where
  columns_location : ResourceVariantColumns → Location
  no_location other_location : Location

-- `FeatureDef`
pub record FeatureDef : Type 0 where
  pub name : Text
  pub variant : Text
  pub source : NameVariant
  pub type : Text
  pub entity : Text
  pub owner : Text
  pub description : Text
  pub provider : Text
  pub schedule : Text
  pub location : Location

-- `LabelDef`
pub record LabelDef : Type 0 where
  pub name : Text
  pub variant : Text
  pub description : Text
  pub type : Text
  pub source : NameVariant
  pub entity : Text
  pub owner : Text
  pub provider : Text
  pub location : Location

-- `TrainingSetDef`
pub record TrainingSetDef : Type 0 where
  pub name : Text
  pub variant : Text
  pub description : Text
  pub owner : Text
  pub provider : Text
  pub schedule : Text
  pub label : NameVariant
  pub features : List NameVariant

-- `SourceType`, with `TransformationType` and `PrimaryDataLocationType`, each of which may be nil.
pub data SourceType : Type 0 where
  sql_transformation : (query : Text) (sources : List NameVariant) → SourceType
  sql_table : (name : Text) → SourceType
  no_transformation_type no_location_type no_definition : SourceType

-- `SourceDef`
pub record SourceDef : Type 0 where
  pub name : Text
  pub variant : Text
  pub description : Text
  pub owner : Text
  pub provider : Text
  pub schedule : Text
  pub definition : SourceType

-- `ProviderDef`
pub record ProviderDef : Type 0 where
  pub name : Text
  pub description : Text
  pub type : Text
  pub software : Text
  pub team : Text
  pub serialized_config : Text

-- `EntityDef` and `ModelDef`, which have the same fields.
pub record ConsumerDef : Type 0 where
  pub name : Text
  pub description : Text

-- `ResourceDef`: what `Create` knows.
pub data ResourceDef : Type 0 where
  feature_def : FeatureDef → ResourceDef
  label_def : LabelDef → ResourceDef
  training_set_def : TrainingSetDef → ResourceDef
  source_def : SourceDef → ResourceDef
  user_def : (name : Text) → ResourceDef
  provider_def : ProviderDef → ResourceDef
  entity_def model_def : ConsumerDef → ResourceDef

-- A status without a message.
status_only : Option ResourceStatus
status_only = some (record { status = no_status; error_message = [] })

created_only : Option ResourceStatus
created_only = some (record { status = created; error_message = [] })

-- `SerializeFeatureColumns`, `SerializeLabelColumns` and the tests of the location before them.
unfoldable pub serialize_location : Location → Result Error Columns
serialize_location (columns_location c) =
    ok (record { entity = c.entity; value = c.value; ts = c.ts })
serialize_location no_location = err (failure (bytes "not set"))
serialize_location other_location = err (failure (bytes "unexpected type"))

-- `TransformationSource.Serialize`, `PrimaryDataSource.Serialize` and the tests before them.
unfoldable pub serialize_definition : SourceType → Result Error Definition
serialize_definition (sql_transformation query sources) = ok (transformation query sources)
serialize_definition (sql_table name) = ok (primary_data name)
serialize_definition no_transformation_type =
    err (failure (bytes "TransformationSource Type not set"))
serialize_definition no_location_type = err (failure (bytes "PrimaryDataSource Type not set"))
serialize_definition no_definition = err (failure (bytes "SourceDef Definition not set"))

module _ {S : Type 0} (L : ResourceLookup S) (order : List Resource → List Resource)
    (now : Timestamp) where
  -- `CreateFeatureVariant`
  unfoldable pub create_feature_variant : FeatureDef → Action Error S (Unit {0})
  unfolding created_only
  create_feature_variant def s = elim (serialize_location def.location) [
    | err e ↦ (err e, s)
    | ok columns ↦
        Handlers.create_feature_variant L order now
          (record {
            name = def.name;
            variant = def.variant;
            source = some def.source;
            type = def.type;
            entity = def.entity;
            created = none;
            owner = def.owner;
            description = def.description;
            provider = def.provider;
            status = created_only;
            trainingsets = [];
            columns = some columns;
            last_updated = none;
            schedule = def.schedule;
          })
          s
  ]

  -- `CreateLabelVariant`
  unfoldable pub create_label_variant : LabelDef → Action Error S (Unit {0})
  unfolding status_only
  create_label_variant def s = elim (serialize_location def.location) [
    | err e ↦ (err e, s)
    | ok columns ↦
        Handlers.create_label_variant L order now
          (record {
            name = def.name;
            variant = def.variant;
            description = def.description;
            type = def.type;
            source = some def.source;
            entity = def.entity;
            created = none;
            owner = def.owner;
            provider = def.provider;
            status = status_only;
            trainingsets = [];
            columns = some columns;
          })
          s
  ]

  -- `CreateTrainingSetVariant`
  unfoldable pub create_training_set_variant : TrainingSetDef → Action Error S (Unit {0})
  unfolding created_only
  create_training_set_variant def = Handlers.create_training_set_variant L order now (record {
    name = def.name;
    variant = def.variant;
    description = def.description;
    owner = def.owner;
    created = none;
    provider = def.provider;
    status = created_only;
    features = def.features;
    label = some def.label;
    last_updated = none;
    schedule = def.schedule;
  })

  -- `CreateSourceVariant`
  unfoldable pub create_source_variant : SourceDef → Action Error S (Unit {0})
  unfolding created_only
  create_source_variant def s = elim (serialize_definition def.definition) [
    | err e ↦ (err e, s)
    | ok definition ↦
        Handlers.create_source_variant L order now
          (record {
            name = def.name;
            variant = def.variant;
            definition = some definition;
            owner = def.owner;
            description = def.description;
            provider = def.provider;
            created = none;
            status = created_only;
            table = [];
            trainingsets = [];
            features = [];
            labels = [];
            last_updated = none;
            schedule = def.schedule;
          })
          s
  ]

  -- `CreateUser`
  unfoldable pub create_user : Text → Action Error S (Unit {0})
  create_user name = Handlers.create_user L order (record {
    name = name;
    status = none;
    features = [];
    labels = [];
    trainingsets = [];
    sources = [];
  })

  -- `CreateProvider`
  unfoldable pub create_provider : ProviderDef → Action Error S (Unit {0})
  unfolding status_only
  create_provider def = Handlers.create_provider L order (record {
    name = def.name;
    description = def.description;
    type = def.type;
    software = def.software;
    team = def.team;
    serialized_config = def.serialized_config;
    status = status_only;
    sources = [];
    features = [];
    trainingsets = [];
    labels = [];
  })

  consumer : ConsumerDef → Consumer
  unfolding status_only
  consumer def = record {
    name = def.name;
    description = def.description;
    status = status_only;
    features = [];
    labels = [];
    trainingsets = [];
  }

  -- `CreateEntity`
  unfoldable pub create_entity : ConsumerDef → Action Error S (Unit {0})
  unfolding consumer
  create_entity def = Handlers.create_entity L order (consumer def)

  -- `CreateModel`
  unfoldable pub create_model : ConsumerDef → Action Error S (Unit {0})
  unfolding consumer
  create_model def = Handlers.create_model L order (consumer def)

  -- `Create`
  unfoldable pub create : ResourceDef → Action Error S (Unit {0})
  unfolding create_feature_variant create_label_variant create_training_set_variant
      create_source_variant create_user create_provider create_entity create_model
  create (feature_def def) = create_feature_variant def
  create (label_def def) = create_label_variant def
  create (training_set_def def) = create_training_set_variant def
  create (source_def def) = create_source_variant def
  create (user_def name) = create_user name
  create (provider_def def) = create_provider def
  create (entity_def def) = create_entity def
  create (model_def def) = create_model def

  -- `CreateAll`
  unfoldable pub create_all : List ResourceDef → Action Error S (Unit {0})
  unfolding create
  create_all [] s = (ok tt, s)
  create_all (def ∷ defs) s =
      let (done, s') = create def s in
      let rest = create_all defs s' in elim done [ err e ↦ (err e, s') | ok u ↦ rest ]

-- `RequestScheduleChange`
unfoldable pub schedule_change :
    {S : Type 0} → ResourceLookup S → ResourceId → Text → Action Error S (Unit {0})
schedule_change L id schedule = request_schedule_change L id schedule
