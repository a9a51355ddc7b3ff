-- ===== src/Metadata/Etcd/Cluster.antt =====
-- metadata/etcd.go: the rows and jobs that stand in etcd, and what the service calls of the etcd
-- client and of the encoders, with what their documentation promises.
use featureform.Common.{
  ℕ, ◌≡◌, Option, none, some, List, [], ◌∷◌, if◌then◌else◌, Result, ok, Action, ◌↔◌, true, ◌=?◌,
}
use featureform.Text.{Text, has_prefix, text_keys}
use featureform.Metadata.Types.{ResourceId, ResourceType, Error}
use featureform.Metadata.Resource.{Resource, resource_id}

-- `type EtcdRow struct` and `EtcdRowTemp`: a message may be nil.
pub record EtcdRow : Type 0 where
  pub resource_type : ResourceType
  pub storage_type : Text
  pub message : Option Text

-- `type CoordinatorJob struct` and `CoordinatorScheduleJob`
pub record CoordinatorJob : Type 0 where
  pub attempts : ℕ
  pub resource : ResourceId
  pub schedule : Text

-- `type TempJob struct`
pub record TempJob : Type 0 where
  pub attempts : ℕ
  pub name : Text
  pub variant : Text
  pub type : Text
  pub schedule : Text

-- `clientv3.Client` over a cluster in state `K`: a write, the values under one key, and the number
-- and the values of the keys with a prefix.
pub record EtcdClient (K : Type 0) : Type 0 where
  pub put : Text → Text → Action Error K (Unit {0})
  pub get : Text → K → Result Error (List Text)
  pub count_prefix : Text → K → Result Error ℕ
  pub get_prefix : Text → K → Result Error (List Text)

abbrev pub values_of : Option Text → List Text
values_of none = []
values_of (some v) = v ∷ []

-- What etcd documents of a cluster that answers: it is a map from keys to values.
pub record Answers {K : Type 0} (C : EtcdClient K) (stored : K → Text → Option Text) : Type 0 where
  pub put_ok : (key v : Text) (k : K) → (C.put key v k).0 ≡ ok tt
  pub stored-put :
      (key v : Text) (k : K) (j : Text)
      → stored (C.put key v k).1 j ≡ (if key =? j then some v else stored k j)
  pub get_lem : (key : Text) (k : K) → C.get key k ≡ ok (values_of (stored k key))
  -- The count under a prefix is 0 exactly if no key with the prefix is stored.
  pub counts :
      (p : Text) (k : K)
      → (n : ℕ) × (C.count_prefix p k ≡ ok n)
        × ((n ≡ 0) ↔ ((key : Text) → has_prefix key p ≡ true → stored k key ≡ none))

-- `json.Marshal`, `json.Unmarshal`, `proto.Marshal` and `proto.Unmarshal`. The type tells which
-- message the last one reads into.
pub record Codec : Type 0 where
  pub marshal_row : EtcdRow → Result Error Text
  pub unmarshal_row : Text → Result Error EtcdRow
  pub marshal : Resource → Result Error Text
  pub unmarshal : ResourceType → Text → Result Error Resource
  pub marshal_job : TempJob → Result Error Text
  pub unmarshal_job : Text → Result Error TempJob
  pub marshal_schedule_job : CoordinatorJob → Result Error Text

-- What is encoded can be decoded: the message of a resource and the row that holds it, which is not
-- encoded as the empty text.
pub record Encodes (X : Codec) (r : Resource) (storage : Text) : Type 0 where
  pub p : Text
  pub first : ℕ
  pub rest : Text
  pub written : X.marshal r ≡ ok p
  pub read : X.unmarshal (resource_id r).type p ≡ ok r
  pub row_written :
      X.marshal_row
        (record { resource_type = (resource_id r).type; storage_type = storage; message = some p })
      ≡ ok (first ∷ rest)
  pub row_read :
      X.unmarshal_row (first ∷ rest)
      ≡ ok (record {
        resource_type = (resource_id r).type;
        storage_type = storage;
        message = some p;
      })

-- The same of a job.
pub record EncodesJob (X : Codec) (j : TempJob) : Type 0 where
  pub t : Text
  pub written : X.marshal_job j ≡ ok t
  pub read : X.unmarshal_job t ≡ ok j
