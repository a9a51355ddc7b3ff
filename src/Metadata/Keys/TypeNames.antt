-- ===== src/Metadata/Keys/TypeNames.antt =====
-- metadata/proto/metadata.proto: the names of the resource types, read back.
use featureform.Common.{◌≡◌, refl, arith, if◌then◌else◌}
use featureform.Text.{Text, bytes, text_eq}
use featureform.Metadata.Types.{
  ResourceType, type_name, feature, label, training_set, source, feature_variant, label_variant,
  training_set_variant, source_variant, provider, entity, model, user, unknown,
}
use featureform.Metadata.Names.Safety.{IsDelimited}

-- `ResourceType(pb.ResourceType_value[name])`: a missing key of the Go map reads as 0.
unfoldable pub type_value : Text → ResourceType
type_value s =
    if text_eq s (bytes "FEATURE")
    then feature
    else if text_eq s (bytes "LABEL")
    then label
    else if text_eq s (bytes "TRAINING_SET")
    then training_set
    else if text_eq s (bytes "SOURCE")
    then source
    else if text_eq s (bytes "FEATURE_VARIANT")
    then feature_variant
    else if text_eq s (bytes "LABEL_VARIANT")
    then label_variant
    else if text_eq s (bytes "TRAINING_SET_VARIANT")
    then training_set_variant
    else if text_eq s (bytes "SOURCE_VARIANT")
    then source_variant
    else if text_eq s (bytes "PROVIDER")
    then provider
    else if text_eq s (bytes "ENTITY")
    then entity
    else if text_eq s (bytes "MODEL")
    then model
    else if text_eq s (bytes "USER")
    then user
    else feature

-- A type that the proto file declares.
abbrev pub IsKnown : ResourceType → Type 0
IsKnown (unknown n) = ⊥
IsKnown _ = Unit

-- The name of a declared type reads back as the type.
pub type_value-type_name : (t : ResourceType) → IsKnown t → type_value (type_name t) ≡ t
unfolding type_value type_name text_eq
type_value-type_name (unknown n) k = absurd k
type_value-type_name feature k = refl
type_value-type_name _ k = refl

pub type_name-IsDelimited : (t : ResourceType) → IsDelimited (type_name t)
unfolding type_name
type_name-IsDelimited feature = omega arith
type_name-IsDelimited _ = omega arith
