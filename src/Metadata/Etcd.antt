-- ===== src/Metadata/Etcd.antt =====
-- metadata/etcd.go: `EtcdStorage`, the rows that it holds, and `etcdResourceLookup`. The etcd client
-- and the JSON and protobuf encoders are not part of the repository: they are parameters.
pub mod Cluster
pub mod Lookups
mod Tests
use featureform.Common.{
  ℕ, ◌+◌, zero, suc, ◌≡◌, ◌≢◌, Bool, true, false, Option, none, some, List, [], ◌∷◌, ◌==◌,
  if◌then◌else◌, Result, ok, err, ◌>>=◌, ◌>>◌, Action, Map, put, fail_if, not,
}
use featureform.Text.{Text, bytes, text_eq}
use featureform.Metadata.Types.{
  ResourceId, ResourceType, ResourceStatus, Error, not_found, job_already_set, not_resource_type,
  invalid_type, nil_dereference, failure, id_keys, type_name, type_eq, feature, label, training_set,
  source, feature_variant, label_variant, training_set_variant, source_variant, provider, entity,
  model, user, unknown,
}
use featureform.Metadata.Keys.{create_key, get_job_key, get_schedule_job_key}
use featureform.Metadata.Keys.TypeNames.{type_value}
use featureform.Metadata.Messages.{Timestamp}
use featureform.Metadata.Resource.{Resource, resource_id, update_status}
use featureform.Metadata.Lookup.{ResourceLookup}
use featureform.Metadata.Etcd.Cluster.{EtcdClient, Codec, EtcdRow, TempJob, CoordinatorJob}

-- `const RESOURCE StorageType = "Resource"`
abbrev pub resource_storage : Text
resource_storage = bytes "Resource"

-- `createEmptyResource`: the type tells which message the bytes are read into. The empty message
-- itself is the decoder's business, so only the test of the type is left.
unfoldable pub create_empty_resource : ResourceType → Result Error ResourceType
create_empty_resource (unknown n) = err invalid_type
create_empty_resource t = ok t

-- `CoordinatorJob.Serialize`, up to the encoder.
unfoldable pub temp_job : CoordinatorJob → TempJob
temp_job c = record {
  attempts = c.attempts;
  name = c.resource.name;
  variant = c.resource.variant;
  type = type_name c.resource.type;
  schedule = c.schedule;
}

-- `CoordinatorJob.Deserialize`, after the decoder.
unfoldable pub job_of_temp : TempJob → CoordinatorJob
job_of_temp j = record {
  attempts = j.attempts;
  resource = record { name = j.name; variant = j.variant; type = type_value j.type };
  schedule = j.schedule;
}

module _ (X : Codec) where
  -- `CoordinatorJob.Serialize`
  unfoldable pub serialize_job : CoordinatorJob → Result Error Text
  serialize_job c = X.marshal_job (temp_job c)

  -- `CoordinatorJob.Deserialize`
  unfoldable pub deserialize_job : Text → Result Error CoordinatorJob
  deserialize_job t = do j ← X.unmarshal_job t; ok (job_of_temp j)

  -- `serializeResource`
  unfoldable pub serialize_resource : Resource → Result Error Text
  serialize_resource res = do
    p ← X.marshal res
    X.marshal_row (record {
      resource_type = (resource_id res).type;
      storage_type = resource_storage;
      message = some p;
    })

  parse_message : ResourceType → Option Text → Result Error Resource
  parse_message t none = err (failure (bytes "cannot parse invalid message"))
  parse_message t (some p) = X.unmarshal t p

  -- `ParseResource`
  unfoldable pub parse_resource : EtcdRow → ResourceType → Result Error Resource
  unfolding parse_message
  parse_resource row t =
      if text_eq row.storage_type resource_storage
      then parse_message t row.message
      else err not_resource_type

  -- `deserialize`, `createEmptyResource` and `ParseResource`, as Lookup, Submap and the lists chain
  -- them.
  unfoldable pub read_resource : Text → Result Error Resource
  read_resource value = do
    row ← X.unmarshal_row value
    t ← create_empty_resource row.resource_type
    parse_resource row t

module _ {K : Type 0} (C : EtcdClient K) where
  -- `EtcdStorage.Get`: the first value of the response, or nothing.
  unfoldable pub get : Text → K → Result Error Text
  get key k = elim (C.get key k) [ err e ↦ err e | ok [] ↦ ok [] | ok (v ∷ vs) ↦ ok v ]

  -- `GetCountWithPrefix`, as Has and HasJob use it.
  unfoldable pub has_prefix_key : Text → K → Result Error Bool
  has_prefix_key key k = do n ← C.count_prefix key k; ok (if n == 0 then false else true)

  -- `etcdResourceLookup.Has`
  unfoldable pub has : ResourceId → K → Result Error Bool
  unfolding has_prefix_key
  has id k = has_prefix_key (create_key id) k

  -- `etcdResourceLookup.HasJob`
  unfoldable pub has_job : ResourceId → K → Result Error Bool
  unfolding has_prefix_key
  has_job id k = has_prefix_key (get_job_key id) k

module _ {K : Type 0} (C : EtcdClient K) (X : Codec) where
  put_serialized : Text → Result Error Text → Action Error K (Unit {0})
  put_serialized key (err e) k = (err e, k)
  put_serialized key (ok v) k = C.put key v k

  -- `etcdResourceLookup.Set`
  unfoldable pub set : ResourceId → Resource → Action Error K (Unit {0})
  unfolding put_serialized
  set id res = put_serialized (create_key id) (serialize_resource X res)

  -- `etcdResourceLookup.SetJob`: an error of HasJob counts as no job.
  unfoldable pub set_job : ResourceId → Text → Action Error K (Unit {0})
  unfolding put_serialized
  set_job id schedule k = elim (has_job C id k) [
    | ok true ↦ (err job_already_set, k)
    | _ ↦
        put_serialized (get_job_key id)
          (serialize_job X (record { attempts = 0; resource = id; schedule = schedule })) k
  ]

  -- `etcdResourceLookup.SetSchedule`, which leaves the change to the coordinator.
  unfoldable pub set_schedule : ResourceId → Text → Action Error K (Unit {0})
  unfolding put_serialized
  set_schedule id schedule =
      put_serialized (get_schedule_job_key id)
        (X.marshal_schedule_job (record { attempts = 0; resource = id; schedule = schedule }))

  -- `etcdResourceLookup.Lookup`
  unfoldable pub lookup : ResourceId → K → Result Error Resource
  lookup id k = elim (get C (create_key id) k) [
    | err e ↦ err (not_found id)
    | ok [] ↦ err (not_found id)
    | ok (b ∷ bs) ↦ read_resource X (b ∷ bs)
  ]

  -- The loop of `Submap`.
  unfoldable pub submap_loop :
      K → Map ResourceId Resource → List ResourceId → Result Error (Map ResourceId Resource)
  submap_loop k resources [] = ok resources
  submap_loop k resources (id ∷ ids) = elim (get C (create_key id) k) [
    | err e ↦ err (not_found id)
    | ok value ↦ elim (read_resource X value) [
      | err e ↦ err e
      | ok r ↦ submap_loop k (put resources id r) ids
    ]
  ]

  -- `etcdResourceLookup.Submap`
  unfoldable pub submap : List ResourceId → K → Result Error (Map ResourceId Resource)
  unfolding submap_loop
  submap ids k = submap_loop k [] ids

  write_status :
      ResourceId → Timestamp → ResourceStatus → Result Error Resource → Action Error K (Unit {0})
  write_status id now status (err e) k = (err e, k)
  write_status id now status (ok r) k = set id (update_status now r status) k

  -- `etcdResourceLookup.SetStatus`
  unfoldable pub set_status : Timestamp → ResourceId → ResourceStatus → Action Error K (Unit {0})
  unfolding write_status
  set_status now id status k = write_status id now status (lookup id k) k

  -- The loop of `ListForType`. The error of ParseResource is not tested, so the call of `ID` on a
  -- resource that could not be parsed goes through a nil interface.
  unfoldable pub list_for_type_loop : ResourceType → List Text → Result Error (List Resource)
  list_for_type_loop t [] = ok []
  list_for_type_loop t (value ∷ values) = do
    row ← X.unmarshal_row value
    empty ← create_empty_resource row.resource_type
    resource ← elim (parse_resource X row empty) [ err e ↦ err nil_dereference | ok r ↦ ok r ]
    rest ← list_for_type_loop t values
    ok (if type_eq (resource_id resource).type t then resource ∷ rest else rest)

  -- `etcdResourceLookup.ListForType`
  unfoldable pub list_for_type : ResourceType → K → Result Error (List Resource)
  list_for_type t k = do values ← C.get_prefix (type_name t) k; list_for_type_loop t values

  -- The loop of `List`, which appends what ParseResource returned, nil where it failed.
  unfoldable pub list_loop : List Text → Result Error (List (Option Resource))
  list_loop [] = ok []
  list_loop (value ∷ values) = do
    row ← X.unmarshal_row value
    empty ← create_empty_resource row.resource_type
    rest ← list_loop values
    ok (elim (parse_resource X row empty) [ err e ↦ none ∷ rest | ok r ↦ some r ∷ rest ])

  -- `etcdResourceLookup.List`
  unfoldable pub list : K → Result Error (List (Option Resource))
  list k = do values ← C.get_prefix [] k; list_loop values

  -- `etcdResourceLookup`
  abbrev pub etcd_lookup : ResourceLookup K
  etcd_lookup = record {
    lookup = lookup;
    has = has C;
    set = set;
    submap = submap;
    list_for_type = list_for_type;
    list = list;
    has_job = has_job C;
    set_job = set_job;
    set_status = set_status;
    set_schedule = set_schedule;
  }
