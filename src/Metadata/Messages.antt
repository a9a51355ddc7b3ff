-- ===== src/Metadata/Messages.antt =====
-- metadata/proto/metadata.proto: the messages that the resources wrap. A message field is `Option`:
-- its pointer may be nil.
use featureform.Common.{ℕ, Option, List}
use featureform.Text.{Text}
use featureform.Metadata.Types.{NameVariant, ResourceStatus}

-- `google.protobuf.Timestamp`, in nanoseconds.
abbrev pub Timestamp : Type 0
Timestamp = ℕ

-- `Feature`, `Label`, `TrainingSet` and `Source`, which have the same fields.
pub record Group : Type 0 where
  pub name : Text
  pub status : Option ResourceStatus
  pub default_variant : Text
  pub variants : List Text

pub record Columns : Type 0 where
  pub entity : Text
  pub value : Text
  pub ts : Text

pub record FeatureVariant : Type 0 where
  pub name : Text
  pub variant : Text
  pub source : Option NameVariant
  pub type : Text
  pub entity : Text
  pub created : Option Timestamp
  pub owner : Text
  pub description : Text
  pub provider : Text
  pub status : Option ResourceStatus
  pub trainingsets : List NameVariant
  pub columns : Option Columns
  pub last_updated : Option Timestamp
  pub schedule : Text

pub record LabelVariant : Type 0 where
  pub name : Text
  pub variant : Text
  pub description : Text
  pub type : Text
  pub source : Option NameVariant
  pub entity : Text
  pub created : Option Timestamp
  pub owner : Text
  pub provider : Text
  pub status : Option ResourceStatus
  pub trainingsets : List NameVariant
  pub columns : Option Columns

pub record Provider : Type 0 where
  pub name : Text
  pub description : Text
  pub type : Text
  pub software : Text
  pub team : Text
  pub serialized_config : Text
  pub status : Option ResourceStatus
  pub sources : List NameVariant
  pub features : List NameVariant
  pub trainingsets : List NameVariant
  pub labels : List NameVariant

pub record TrainingSetVariant : Type 0 where
  pub name : Text
  pub variant : Text
  pub description : Text
  pub owner : Text
  pub created : Option Timestamp
  pub provider : Text
  pub status : Option ResourceStatus
  pub features : List NameVariant
  pub label : Option NameVariant
  pub last_updated : Option Timestamp
  pub schedule : Text

-- `Entity` and `Model`, which have the same fields.
pub record Consumer : Type 0 where
  pub name : Text
  pub description : Text
  pub status : Option ResourceStatus
  pub features : List NameVariant
  pub labels : List NameVariant
  pub trainingsets : List NameVariant

pub record User : Type 0 where
  pub name : Text
  pub status : Option ResourceStatus
  pub features : List NameVariant
  pub labels : List NameVariant
  pub trainingsets : List NameVariant
  pub sources : List NameVariant

-- The `oneof` of a source variant: an SQL transformation or a primary table.
pub data Definition : Type 0 where
  transformation : (query : Text) (sources : List NameVariant) → Definition
  primary_data : (table_name : Text) → Definition

pub record SourceVariant : Type 0 where
  pub name : Text
  pub variant : Text
  pub definition : Option Definition
  pub owner : Text
  pub description : Text
  pub provider : Text
  pub created : Option Timestamp
  pub status : Option ResourceStatus
  pub table : Text
  pub trainingsets : List NameVariant
  pub features : List NameVariant
  pub labels : List NameVariant
  pub last_updated : Option Timestamp
  pub schedule : Text
