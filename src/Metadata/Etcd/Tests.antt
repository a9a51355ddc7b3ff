-- ===== src/Metadata/Etcd/Tests.antt =====
-- A cluster that is a map and an encoder for one resource and one job, and the etcd lookup run on
-- them.
use featureform.Common.{
  ap, ◌≢◌, ℕ, ◌+◌, ◌≡◌, ◌≢◌, refl, true, false, none, some, List, [], ◌∷◌, arith, ok, err,
  if◌then◌else◌, Map, find, put, find-put, Bool-cases, inl, inr,
}
use featureform.Text.{
  Text, text_eq, text_eq_iff, text_eq_refl, has_prefix, bytes, text_keys, contains, has_suffix,
}
use featureform.Metadata.Types.{
  ResourceId, not_found, job_already_set, feature_variant, failure, type_name,
}
use featureform.Metadata.Resource.{Resource, resource_id, feature_variant_resource}
use featureform.Metadata.Keys.{create_key, get_job_key}
use featureform.Metadata.Keys.Prefixes.{IsWellNamed, Extends}
use featureform.Metadata.Etcd.{
  resource_storage, temp_job, has_prefix_key, has_job, has, lookup, set, set_job, serialize_job,
  deserialize_job,
}
use featureform.Metadata.Etcd.Cluster.{
  EtcdClient, Answers, Codec, Encodes, EncodesJob, CoordinatorJob, EtcdRow, TempJob, values_of,
}
use featureform.Metadata.Etcd.Lookups.{
  set-lookup, set_job_twice, has-extended, deserialize_job-serialize_job,
}
use featureform.Metadata.Samples.{a_feature_variant}
use featureform.Metadata.Names.{resource_named_safely}
use featureform.Metadata.Names.Safety.{resource_named_safely_iff}

abbrev Cluster : Type 0
Cluster = Map Text Text

unfoldable count : Text → Cluster → ℕ
count p [] = 0
count p ((key, v) ∷ k) = let n = count p k in if has_prefix key p then 1 + n else n

unfoldable values : Text → Cluster → List Text
values p [] = []
values p ((key, v) ∷ k) = let vs = values p k in if has_prefix key p then v ∷ vs else vs

abbrev client : EtcdClient Cluster
client = record {
  put = λ key v k. (ok tt, put k key v);
  get = λ key k. ok (values_of (find k key));
  count_prefix = λ p k. ok (count p k);
  get_prefix = λ p k. ok (values p k);
}

count-zero :
    (p : Text) (k : Cluster) (key : Text)
    → count p k ≡ 0
    → has_prefix key p ≡ true
    → find k key ≡ none
unfolding count find
count-zero p [] key z starts = refl
count-zero p ((j, v) ∷ k) key z starts = ground (arith, count-zero p k key, text_eq_iff j key)

zero-count :
    (p : Text) (k : Cluster)
    → ((key : Text) → has_prefix key p ≡ true → find k key ≡ none)
    → count p k ≡ 0
unfolding count find
zero-count p [] gone = refl
zero-count p ((j, v) ∷ k) gone = elim (Bool-cases (has_prefix j p)) [
  | inl starts ↦ absurd (ground (arith, gone j starts, text_eq_refl j))
  | inr other ↦
      rw other (zero-count p k (λ key starts. ground (arith, gone key starts, text_eq_iff j key)))
]

answers : Answers client (λ k key. find k key)
answers = record {
  put_ok = λ key v k. refl;
  stored-put = λ key v k j. find-put k key v j;
  get_lem = λ key k. refl;
  counts =
      λ p k. (count p k, refl, ((λ z key starts. count-zero p k key z starts), zero-count p k));
}

abbrev fraud_variant : ResourceId
fraud_variant = record { name = bytes "fraud"; variant = bytes "v1"; type = feature_variant }

abbrev fraud_longer : ResourceId
fraud_longer = record { name = bytes "fraud"; variant = bytes "v10"; type = feature_variant }

abbrev a_resource : Resource
a_resource = feature_variant_resource a_feature_variant

abbrev a_row : EtcdRow
a_row = record {
  resource_type = feature_variant;
  storage_type = resource_storage;
  message = some (bytes "spend");
}

abbrev a_job : CoordinatorJob
a_job = record { attempts = 0; resource = fraud_variant; schedule = bytes "0 * * * *" }

abbrev a_temp_job : TempJob
a_temp_job = record {
  attempts = 0;
  name = bytes "fraud";
  variant = bytes "v1";
  type = bytes "FEATURE_VARIANT";
  schedule = bytes "0 * * * *";
}

-- It writes the name of what it encodes and reads back one row, one message and one job.
abbrev codec : Codec
codec = record {
  marshal_row = λ row. ok (bytes "row");
  unmarshal_row = λ t. if text_eq t (bytes "row") then ok a_row else err (failure t);
  marshal = λ r. ok (resource_id r).name;
  unmarshal = λ type t. if text_eq t (bytes "spend") then ok a_resource else err (failure t);
  marshal_job = λ j. ok j.name;
  unmarshal_job = λ t. if text_eq t (bytes "fraud") then ok a_temp_job else err (failure t);
  marshal_schedule_job = λ j. ok j.resource.name;
}

encodes : Encodes codec a_resource resource_storage
unfolding resource_id text_eq
encodes = record {
  p = bytes "spend";
  first = 114;
  rest = bytes "ow";
  written = refl;
  read = refl;
  row_written = refl;
  row_read = refl;
}

encodes_job : EncodesJob codec (temp_job a_job)
unfolding text_eq temp_job type_name
encodes_job = record { t = bytes "fraud"; written = refl; read = refl }

fraud_variant-accepted : resource_named_safely fraud_variant ≡ ok tt
unfolding resource_named_safely contains has_suffix
fraud_variant-accepted = refl

fraud_variant-IsWellNamed : IsWellNamed fraud_variant
fraud_variant-IsWellNamed = record {
  known = tt;
  name = ((resource_named_safely_iff fraud_variant).0 fraud_variant-accepted).0;
}

fraud_longer-IsWellNamed : IsWellNamed fraud_longer
fraud_longer-IsWellNamed = record { known = tt; name = fraud_variant-IsWellNamed.name }

fraud_longer-Extends : Extends fraud_longer fraud_variant
unfolding has_prefix
fraud_longer-Extends = record { type = refl; name = refl; variant = refl }

abbrev only_longer : Cluster
only_longer = (create_key fraud_longer, bytes "row") ∷ []

only_longer-absent : find only_longer (create_key fraud_variant) ≡ none
unfolding find create_key text_eq type_name
only_longer-absent = refl

only_longer-present : find only_longer (create_key fraud_longer) ≢ none
unfolding find create_key text_eq type_name
only_longer-present h = ground arith

free : has_job client fraud_variant only_longer ≡ ok false
unfolding has_job has_prefix_key count has_prefix get_job_key create_key type_name
free = refl

fraud_differ : fraud_longer ≢ fraud_variant
fraud_differ e = ground (arith, ap (λ x. x.variant) e)

set-lookup_example :
    let after = (set client codec fraud_variant a_resource only_longer).1 in
    ((set client codec fraud_variant a_resource only_longer).0 ≡ ok tt)
    × (lookup client codec fraud_variant after ≡ ok a_resource)
    × (lookup client codec fraud_longer after ≡ lookup client codec fraud_longer only_longer)
set-lookup_example =
    set-lookup client (λ k key. find k key) answers codec a_resource only_longer fraud_variant
      fraud_longer encodes fraud_variant-IsWellNamed fraud_longer-IsWellNamed fraud_differ

has-extended_example :
    (has client fraud_variant only_longer ≡ ok true)
    × (lookup client codec fraud_variant only_longer ≡ err (not_found fraud_variant))
has-extended_example =
    has-extended client (λ k key. find k key) answers codec only_longer fraud_variant fraud_longer
      fraud_variant-IsWellNamed fraud_longer-IsWellNamed fraud_longer-Extends only_longer-absent
      only_longer-present

set_job_twice_example :
    let after = (set_job client codec fraud_variant (bytes "0 * * * *") only_longer).1 in
    ((set_job client codec fraud_variant (bytes "0 * * * *") only_longer).0 ≡ ok tt)
    × (set_job client codec fraud_variant [] after ≡ (err job_already_set, after))
    × (lookup client codec fraud_longer after ≡ lookup client codec fraud_longer only_longer)
set_job_twice_example =
    set_job_twice client (λ k key. find k key) answers codec only_longer fraud_variant fraud_longer
      (bytes "0 * * * *") [] encodes_job free tt

deserialize_job-serialize_job_example :
    (t : Text) × (serialize_job codec a_job ≡ ok t) × (deserialize_job codec t ≡ ok a_job)
deserialize_job-serialize_job_example = deserialize_job-serialize_job codec a_job encodes_job tt
