-- ===== src/Provider/Offline/Types.antt =====
-- provider/offline.go: ids, their checks and records. A value is an `interface{}`: `none` is nil. A
-- time is an instant, in nanoseconds from Go's zero time, the start of the year 1, and all are in UTC.
use featureform.Common.{
  ℕ, zero, suc, Bool, true, false, ◌||◌, ◌&&◌, Option, List, [], ◌∷◌, ◌++◌, if◌then◌else◌, ◌==◌,
  Result, ok, err, ◌>>=◌, ◌>>◌, ◌≡◌, ◌↔◌, refl, Eq, arith, fail_if,
}
use featureform.Text.{Text, text_eq, text_eq_iff}

-- `type OfflineResourceType int`
pub data OfflineResourceType : Type 0 where
  no_type label feature training_set primary transformation : OfflineResourceType

abbrev pub type_code : OfflineResourceType → ℕ
type_code no_type = 0
type_code label = 1
type_code feature = 2
type_code training_set = 3
type_code primary = 4
type_code transformation = 5

type_of_code : ℕ → OfflineResourceType
type_of_code zero = no_type
type_of_code (suc zero) = label
type_of_code (suc (suc zero)) = feature
type_of_code (suc (suc (suc zero))) = training_set
type_of_code (suc (suc (suc (suc zero)))) = primary
type_of_code (suc (suc (suc (suc (suc n))))) = transformation

type_of_code-type_code : (t : OfflineResourceType) → type_of_code (type_code t) ≡ t
unfolding type_of_code
type_of_code-type_code no_type = refl
type_of_code-type_code label = refl
type_of_code-type_code feature = refl
type_of_code-type_code training_set = refl
type_of_code-type_code primary = refl
type_of_code-type_code transformation = refl

-- `type ResourceID struct`
pub record ResourceId : Type 0 where
  pub name : Text
  pub variant : Text
  pub type : OfflineResourceType

abbrev pub type_eq : OfflineResourceType → OfflineResourceType → Bool
type_eq a b = type_code a == type_code b

abbrev pub id_eq : ResourceId → ResourceId → Bool
id_eq a b = text_eq a.name b.name && (text_eq a.variant b.variant && type_eq a.type b.type)

pub id_eq_iff : (a b : ResourceId) → (id_eq a b ≡ true) ↔ (a ≡ b)
id_eq_iff a b = ground (
  arith,
  text_eq_iff a.name b.name,
  text_eq_iff a.variant b.variant,
  type_of_code-type_code a.type,
  type_of_code-type_code b.type,
)

instance abbrev pub id_keys : Eq ResourceId
id_keys = record { beq = id_eq; beq_iff = id_eq_iff }

-- The errors, and the panics of an index out of range.
pub data Error : Type 0 where
  missing_name missing_entity unexpected_type no_features only_features panic : Error
  table_already_exists table_not_found training_set_not_found : ResourceId → Error
  materialization_not_found : Text → Error

one_of : OfflineResourceType → List OfflineResourceType → Bool
one_of t [] = false
one_of t (u ∷ us) = type_eq t u || one_of t us

-- `len(otherTypes) == 0`
abbrev pub is_nil {ℓ} : {A : Type ℓ} → List A → Bool
is_nil [] = true
is_nil (x ∷ xs) = false

-- `ResourceID.check`, which sets the type through its receiver: the id that it leaves is the result.
unfoldable pub check_id :
    OfflineResourceType → List OfflineResourceType → ResourceId → Result Error ResourceId
unfolding one_of
check_id expected others id =
    if text_eq id.name []
    then err missing_name
    else if type_eq id.type no_type && is_nil others
    then ok (record id { type = expected })
    else if one_of id.type (others ++ (expected ∷ []))
    then ok id
    else err unexpected_type

-- `type TrainingSetDef struct`
pub record TrainingSetDef : Type 0 where
  pub id : ResourceId
  pub label : ResourceId
  pub features : List ResourceId

check_features : List ResourceId → Result Error (List ResourceId)
check_features [] = ok []
check_features (f ∷ fs) = do f' ← check_id feature [] f; fs' ← check_features fs; ok (f' ∷ fs')

-- `TrainingSetDef.check`, which sets the types of its ids through its receiver.
unfoldable pub check_def : TrainingSetDef → Result Error TrainingSetDef
unfolding check_features
check_def def = do
  id ← check_id training_set [] def.id
  label' ← check_id label [] def.label
  fail_if (is_nil def.features) no_features
  features ← check_features def.features
  ok (record { id = id; label = label'; features = features })

-- `type ResourceRecord struct`
pub record ResourceRecord (V : Type 0) : Type 0 where
  pub entity : Text
  pub value : Option V
  pub ts : ℕ

-- `time.UnixMilli(0)`
abbrev pub unix_epoch : ℕ
unix_epoch = 62135596800000000000

module _ {V : Type 0} where
  -- `ResourceRecord.check`
  unfoldable pub check_record : ResourceRecord V → Result Error (Unit {0})
  check_record rec = fail_if (text_eq rec.entity []) missing_entity

  -- `checkTimestamp`
  unfoldable pub check_timestamp : ResourceRecord V → ResourceRecord V
  check_timestamp rec = if rec.ts == 0 then record rec { ts = unix_epoch } else rec
