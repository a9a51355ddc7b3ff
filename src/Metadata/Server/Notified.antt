-- ===== src/Metadata/Server/Notified.antt =====
-- What a resource becomes when it is told of a new resource, with no store in sight, and that
-- `Notify` does this over any store that holds the dependencies of the new resource.
use featureform.Common.{
  ◌≡◌, refl, Bool, true, false, List, [], ◌∷◌, ◌||◌, arith, if◌then◌else◌, Result, ok, err, Map, In,
  inl, inr, ◌=?◌, Bool-cases,
}
use featureform.Metadata.Messages.{SourceVariant, Consumer, User, Provider}
use featureform.Metadata.Types.{
  ResourceId, ResourceType, NameVariant, feature, Error, id_keys, id_eq, id_eq_iff, id_proto,
}
use featureform.Metadata.Resources.Groups
use featureform.Metadata.Resources.SourceVariants
use featureform.Metadata.Resources.FeatureVariants
use featureform.Metadata.Resources.LabelVariants
use featureform.Metadata.Resources.Entities
use featureform.Metadata.Resources.Users
use featureform.Metadata.Resources.Providers
use featureform.Metadata.Resource.{
  Resource, resource_id, dependency_ids, is_direct_dependency, notify, feature_resource,
  label_resource, training_set_resource, source_resource, feature_variant_resource,
  label_variant_resource, training_set_variant_resource, source_variant_resource, model_resource,
  entity_resource, user_resource, provider_resource,
}

unfoldable pub member : ResourceId → List ResourceId → Bool
member k [] = false
member k (x ∷ xs) = x =? k || member k xs

pub member→In : (k : ResourceId) (xs : List ResourceId) → member k xs ≡ true → In k xs
unfolding member
member→In k [] h = cc
member→In k (x ∷ xs) h = elim (Bool-cases (id_eq x k)) [
  | inl same ↦ inl ((id_eq_iff x k).0 same)
  | inr other ↦ inr (member→In k xs (ground (arith, other)))
]

pub In→member : (k : ResourceId) (xs : List ResourceId) → In k xs → member k xs ≡ true
unfolding member
In→member k [] i = absurd i
In→member k (x ∷ xs) (inl e) = ground (arith, (id_eq_iff x k).1 e)
In→member k (x ∷ xs) (inr i) = ground (arith, In→member k xs i)

-- Whether `id` is among the direct dependencies of `new_res`.
unfoldable pub is_dependency : Resource → ResourceId → Bool
is_dependency new_res id = elim (dependency_ids new_res) [ err e ↦ false | ok ids ↦ member id ids ]

-- A resource after it was told of `new_res`: a group has one more variant, and the other resources
-- one more reference. A user and a provider take the reference only if `new_res` names them.
unfoldable pub notified : Resource → Resource → Resource
notified new_res (feature_resource g) =
    feature_resource (Groups.notify_feature g (resource_id new_res))
notified new_res (label_resource g) = label_resource (Groups.notify_label g (resource_id new_res))
notified new_res (training_set_resource g) =
    training_set_resource (Groups.notify_training_set g (resource_id new_res))
notified new_res (source_resource g) =
    source_resource (Groups.notify_source g (resource_id new_res))
notified new_res (feature_variant_resource r) =
    feature_variant_resource (FeatureVariants.notify r (resource_id new_res))
notified new_res (label_variant_resource r) =
    label_variant_resource (LabelVariants.notify r (resource_id new_res))
notified new_res (training_set_variant_resource r) = training_set_variant_resource r
notified new_res (source_variant_resource r) =
    source_variant_resource (SourceVariants.notify r (resource_id new_res))
notified new_res (model_resource r) = model_resource r
notified new_res (entity_resource r) = entity_resource (Entities.notify r (resource_id new_res))
notified new_res (user_resource r) =
    let that = resource_id new_res in
    if is_dependency new_res (Users.id r)
    then user_resource (Users.notify_type that.type r (id_proto that))
    else user_resource r
notified new_res (provider_resource r) =
    let that = resource_id new_res in
    if is_dependency new_res (Providers.id r)
    then provider_resource (Providers.notify_type that.type r (id_proto that))
    else provider_resource r

source_variant-notify_type-id :
    (t : ResourceType) (r : SourceVariant) (key : NameVariant)
    → SourceVariants.id (SourceVariants.notify_type t r key) ≡ SourceVariants.id r
unfolding SourceVariants.id SourceVariants.notify_type
source_variant-notify_type-id feature r key = refl
source_variant-notify_type-id _ r key = refl

entity-notify_type-id :
    (t : ResourceType) (r : Consumer) (key : NameVariant)
    → Entities.id (Entities.notify_type t r key) ≡ Entities.id r
unfolding Entities.id Entities.notify_type
entity-notify_type-id feature r key = refl
entity-notify_type-id _ r key = refl

user-notify_type-id :
    (t : ResourceType) (r : User) (key : NameVariant)
    → Users.id (Users.notify_type t r key) ≡ Users.id r
unfolding Users.id Users.notify_type
user-notify_type-id feature r key = refl
user-notify_type-id _ r key = refl

provider-notify_type-id :
    (t : ResourceType) (r : Provider) (key : NameVariant)
    → Providers.id (Providers.notify_type t r key) ≡ Providers.id r
unfolding Providers.id Providers.notify_type
provider-notify_type-id feature r key = refl
provider-notify_type-id _ r key = refl

-- Being told of a resource changes no id.
pub resource_id-notified : (new_res r : Resource) → resource_id (notified new_res r) ≡ resource_id r
unfolding notified resource_id Groups.notify_feature Groups.notify_label Groups.notify_training_set
    Groups.notify_source FeatureVariants.notify LabelVariants.notify SourceVariants.notify
    Entities.notify
resource_id-notified new_res (source_variant_resource r) =
    let that = resource_id new_res in source_variant-notify_type-id that.type r (id_proto that)
resource_id-notified new_res (entity_resource r) =
    let that = resource_id new_res in entity-notify_type-id that.type r (id_proto that)
resource_id-notified new_res (user_resource r) =
    let that = resource_id new_res in
    ground (arith, user-notify_type-id that.type r (id_proto that))
resource_id-notified new_res (provider_resource r) =
    let that = resource_id new_res in
    ground (arith, provider-notify_type-id that.type r (id_proto that))
resource_id-notified new_res _ = ground arith

source_variant-notify_type-deps :
    (t : ResourceType) (r : SourceVariant) (key : NameVariant)
    → SourceVariants.dependency_ids (SourceVariants.notify_type t r key)
      ≡ SourceVariants.dependency_ids r
unfolding SourceVariants.dependency_ids SourceVariants.notify_type
source_variant-notify_type-deps feature r key = refl
source_variant-notify_type-deps _ r key = refl

-- Nor does it change what a resource depends on.
pub dependency_ids-notified :
    (new_res r : Resource) → dependency_ids (notified new_res r) ≡ dependency_ids r
unfolding notified dependency_ids FeatureVariants.notify LabelVariants.notify SourceVariants.notify
dependency_ids-notified new_res (source_variant_resource r) =
    let that = resource_id new_res in
    ground (arith, source_variant-notify_type-deps that.type r (id_proto that))
dependency_ids-notified new_res (user_resource r) = ground arith
dependency_ids-notified new_res (provider_resource r) = ground arith
dependency_ids-notified new_res _ = ground arith

module _ (submap : List ResourceId → Result Error (Map ResourceId Resource)) (new_res : Resource)
    (answers : (d : Resource)
      → is_direct_dependency submap d new_res ≡ ok (is_dependency new_res (resource_id d))) where
  -- Where the store answers the question of direct dependency rightly, `Notify` succeeds.
  pub notify-eq-notified : (r : Resource) → notify submap r new_res ≡ ok (notified new_res r)
  unfolding notify notified resource_id Users.notify Providers.notify
  notify-eq-notified (user_resource r) = ground (arith, answers (user_resource r))
  notify-eq-notified (provider_resource r) = ground (arith, answers (provider_resource r))
  notify-eq-notified (feature_resource r) = refl
  notify-eq-notified _ = refl
