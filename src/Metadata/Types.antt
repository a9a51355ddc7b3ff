-- ===== src/Metadata/Types.antt =====
-- metadata/metadata.go and metadata/proto/metadata.proto: resource types, statuses, resource ids,
-- and the errors that the metadata service returns.
use featureform.Common.{
  ℕ, ◌+◌, ◌-◌, ◌≡◌, refl, ap, sym, ◌∙◌, ◌↔◌, Bool, true, false, ◌&&◌, Option, none, some, [], arith,
  ◌==◌, if◌then◌else◌, Eq,
}
use featureform.Text.{Text, bytes, text_eq, text_eq_iff}

-- `type ResourceType int32`. A request may carry any number: `unknown n` is the number 12 + n.
pub data ResourceType : Type 0 where
  feature label training_set source : ResourceType
  feature_variant label_variant training_set_variant source_variant : ResourceType
  provider entity model user : ResourceType
  unknown : ℕ → ResourceType

-- The number that stands for a type on the wire.
unfoldable pub type_code : ResourceType → ℕ
type_code feature = 0
type_code label = 1
type_code training_set = 2
type_code source = 3
type_code feature_variant = 4
type_code label_variant = 5
type_code training_set_variant = 6
type_code source_variant = 7
type_code provider = 8
type_code entity = 9
type_code model = 10
type_code user = 11
type_code (unknown n) = n + 12

-- `ResourceType(n)` for a number on the wire.
unfoldable pub type_of_code : ℕ → ResourceType
type_of_code n =
    if n == 0
    then feature
    else if n == 1
    then label
    else if n == 2
    then training_set
    else if n == 3
    then source
    else if n == 4
    then feature_variant
    else if n == 5
    then label_variant
    else if n == 6
    then training_set_variant
    else if n == 7
    then source_variant
    else if n == 8
    then provider
    else if n == 9
    then entity
    else if n == 10
    then model
    else if n == 11
    then user
    else unknown (n - 12)

pub type_of_code-type_code : (t : ResourceType) → type_of_code (type_code t) ≡ t
unfolding type_of_code type_code
type_of_code-type_code feature = refl
type_of_code-type_code (unknown n) = ground arith
type_of_code-type_code _ = refl

unfoldable pub type_eq : ResourceType → ResourceType → Bool
type_eq a b = type_code a == type_code b

pub type_eq_iff : (a b : ResourceType) → (type_eq a b ≡ true) ↔ (a ≡ b)
unfolding type_eq
type_eq_iff a b = (
  λ h. sym (type_of_code-type_code a) ∙ ap type_of_code (ground arith) ∙ type_of_code-type_code b,
  λ e. rw e (ground arith),
)

-- `pb.ResourceType_name[int32(r)]`, empty where the map has no entry.
unfoldable pub type_name : ResourceType → Text
type_name feature = bytes "FEATURE"
type_name label = bytes "LABEL"
type_name training_set = bytes "TRAINING_SET"
type_name source = bytes "SOURCE"
type_name feature_variant = bytes "FEATURE_VARIANT"
type_name label_variant = bytes "LABEL_VARIANT"
type_name training_set_variant = bytes "TRAINING_SET_VARIANT"
type_name source_variant = bytes "SOURCE_VARIANT"
type_name provider = bytes "PROVIDER"
type_name entity = bytes "ENTITY"
type_name model = bytes "MODEL"
type_name user = bytes "USER"
type_name (unknown n) = []

pub data Status : Type 0 where
  no_status created pending ready failed : Status

-- `message ResourceStatus`
pub record ResourceStatus : Type 0 where
  pub status : Status
  pub error_message : Text

-- `message NameVariant`
pub record NameVariant : Type 0 where
  pub name : Text
  pub variant : Text

-- `type ResourceID struct`
pub record ResourceId : Type 0 where
  pub name : Text
  pub variant : Text
  pub type : ResourceType

unfoldable pub id_eq : ResourceId → ResourceId → Bool
id_eq a b = text_eq a.name b.name && (text_eq a.variant b.variant && type_eq a.type b.type)

pub id_eq_iff : (a b : ResourceId) → (id_eq a b ≡ true) ↔ (a ≡ b)
unfolding id_eq
id_eq_iff a b =
    ground
      (arith, text_eq_iff a.name b.name, text_eq_iff a.variant b.variant, type_eq_iff a.type b.type)

-- Go compares the keys of a `map[ResourceID]…` field by field.
instance abbrev pub id_keys : Eq ResourceId
id_keys = record { beq = id_eq; beq_iff = id_eq_iff }

-- `ResourceID.Proto`
abbrev pub id_proto : ResourceId → NameVariant
id_proto id = record { name = id.name; variant = id.variant }

-- `parentMapping`
unfoldable pub parent_mapping : ResourceType → Option ResourceType
parent_mapping feature_variant = some feature
parent_mapping label_variant = some label
parent_mapping source_variant = some source
parent_mapping training_set_variant = some training_set
parent_mapping _ = none

-- `ResourceID.Parent`
unfoldable pub parent : ResourceId → Option ResourceId
unfolding parent_mapping
parent id = elim (parent_mapping id.type) [
  | none ↦ none
  | some t ↦ some (record { name = id.name; variant = []; type = t })
]

-- `MetadataServer.needsJob`, which reads nothing but the type of the resource's id.
unfoldable pub needs_job : ResourceType → Bool
needs_job training_set_variant = true
needs_job feature_variant = true
needs_job source_variant = true
needs_job label_variant = true
needs_job _ = false

pub data NameRule : Type 0 where
  banned_string banned_prefix banned_suffix : NameRule

-- The field of an id that breaks a rule.
pub data NameField : Type 0 where
  in_name in_variant : NameField

-- The errors of the service. `nil_dereference` is the run-time panic of a method that reads through
-- a nil message; `failure` is an error that a storage, a codec or a stream reports.
pub data Error : Type 0 where
  not_found already_exists : ResourceId → Error
  unsafe_name : NameField → NameRule → Text → Error
  not_implemented job_already_set invalid_type nil_dereference : Error
  not_resource_type : Error
  failure : Text → Error
  -- The fuel of the model ran out: no code of the program.
  out_of_fuel : Error
