-- ===== src/Metadata/Etcd/Lookups.antt =====
-- metadata/etcd.go: the etcd lookup over a cluster that answers.
use featureform.Common.{
  ℕ, ◌≡◌, ◌≢◌, refl, sym, ◌∙◌, true, false, Option, none, some, [], ◌∷◌, arith, ok, err, Result,
}
use featureform.Text.{Text, text_eq_iff, text_eq_refl, has_prefix}
use featureform.Metadata.Types.{
  ResourceId, ResourceType, Error, not_found, job_already_set, unknown,
}
use featureform.Metadata.Resource.{Resource, resource_id, feature_resource}
use featureform.Metadata.Keys.{create_key, get_job_key}
use featureform.Metadata.Keys.TypeNames.{IsKnown, type_value-type_name}
use featureform.Metadata.Keys.Prefixes.{
  IsWellNamed, Extends, create_key-prefix_iff, create_key_injective, job_key-ne-resource,
  has_prefix_refl,
}
use featureform.Metadata.Etcd.{
  resource_storage, create_empty_resource, temp_job, job_of_temp, serialize_job, deserialize_job,
  serialize_resource, parse_resource, read_resource, get, has_prefix_key, has, has_job, set,
  set_job, lookup, put_serialized,
}
use featureform.Metadata.Etcd.Cluster.{
  EtcdClient, Answers, Codec, Encodes, EncodesJob, CoordinatorJob,
}

resource_IsKnown : (r : Resource) → IsKnown (resource_id r).type
unfolding resource_id
resource_IsKnown (feature_resource g) = tt
resource_IsKnown _ = tt

create_empty-known : (t : ResourceType) → IsKnown t → create_empty_resource t ≡ ok t
unfolding create_empty_resource
create_empty-known (unknown n) k = absurd k
create_empty-known _ k = refl

-- A job for a resource of a declared type whose encoding can be decoded reads back as it was, the
-- type of its resource included, which is written as its name.
pub deserialize_job-serialize_job :
    (X : Codec) (c : CoordinatorJob)
    → EncodesJob X (temp_job c)
    → IsKnown c.resource.type
    → (t : Text) × (serialize_job X c ≡ ok t) × (deserialize_job X t ≡ ok c)
unfolding serialize_job deserialize_job temp_job job_of_temp
deserialize_job-serialize_job X c e known =
    (e.t, e.written, rw e.read (rw (type_value-type_name c.resource.type known)))

module _ (X : Codec) (r : Resource) (e : Encodes X r resource_storage) where
  read-serialize :
      (serialize_resource X r ≡ ok (e.first ∷ e.rest)) × (read_resource X (e.first ∷ e.rest) ≡ ok r)
  unfolding serialize_resource read_resource parse_resource
  read-serialize = (
    rw e.written e.row_written,
    rw e.row_read (
        rw (create_empty-known (resource_id r).type (resource_IsKnown r))
          (rw (text_eq_refl resource_storage) e.read)),
  )

module _ {K : Type 0} (C : EtcdClient K) (stored : K → Text → Option Text)
    (answers : Answers C stored) where
  get-stored :
      (key : Text) (k : K) (b : ℕ) (bs : Text)
      → stored k key ≡ some (b ∷ bs)
      → get C key k ≡ ok (b ∷ bs)
  unfolding get
  get-stored key k b bs h = rw (answers.get_lem key k, get) (rw h)

  get-absent : (key : Text) (k : K) → stored k key ≡ none → get C key k ≡ ok []
  unfolding get
  get-absent key k h = rw (answers.get_lem key k, get) (rw h)

  has_prefix_key-true :
      (p key : Text) (k : K)
      → has_prefix key p ≡ true
      → stored k key ≢ none
      → has_prefix_key C p k ≡ ok true
  unfolding has_prefix_key
  has_prefix_key-true p key k starts there =
      let (n, counted, zero_iff) = answers.counts p k in
      rw counted (ground (arith, λ (z : n ≡ 0). there (zero_iff.0 z key starts)))

module _ {K : Type 0} (C : EtcdClient K) (stored : K → Text → Option Text)
    (answers : Answers C stored) (X : Codec) where
  put_then : K → Text → Result Error Text → K
  put_then k key (err e) = k
  put_then k key (ok v) = (C.put key v k).1

  stored-other :
      (key j : Text) (v : Text) (k : K) → key ≢ j → stored (C.put key v k).1 j ≡ stored k j
  stored-other key j v k differ = answers.stored-put key v k j ∙ ground (arith, text_eq_iff key j)

  stored-same : (key v : Text) (k : K) → stored (C.put key v k).1 key ≡ some v
  stored-same key v k = answers.stored-put key v k key ∙ rw (text_eq_refl key) refl

  lookup-get :
      (id : ResourceId) (k : K) (b : ℕ) (bs : Text)
      → stored k (create_key id) ≡ some (b ∷ bs)
      → lookup C X id k ≡ read_resource X (b ∷ bs)
  unfolding lookup
  lookup-get id k b bs h = rw (get-stored C stored answers (create_key id) k b bs h, lookup) refl

  lookup-cong :
      (id : ResourceId) (k l : K)
      → stored k (create_key id) ≡ stored l (create_key id)
      → lookup C X id k ≡ lookup C X id l
  unfolding lookup get
  lookup-cong id k l h =
      rw (answers.get_lem (create_key id) k, answers.get_lem (create_key id) l, lookup, get) (rw h)

  -- Over a cluster that answers, a resource whose encoding can be decoded is stored without an error
  -- and can be looked up under its id, and the lookup of another id answers as before, where both ids
  -- have declared types and names that the service accepts.
  pub set-lookup :
      (r : Resource) (k : K) (id other : ResourceId)
      → Encodes X r resource_storage
      → IsWellNamed id
      → IsWellNamed other
      → other ≢ id
      → ((set C X id r k).0 ≡ ok tt)
        × (lookup C X id (set C X id r k).1 ≡ ok r)
        × (lookup C X other (set C X id r k).1 ≡ lookup C X other k)
  unfolding set put_serialized
  set-lookup r k id other e named named' differ =
      let (written, read) = read-serialize X r e in
      let b = e.first in
      let bs = e.rest in
      (
        rw (written, put_serialized) (answers.put_ok (create_key id) (b ∷ bs) k),
        rw (written, put_serialized)
            (lookup-get id _ b bs (stored-same (create_key id) (b ∷ bs) k) ∙ read),
        rw (written, put_serialized)
            (lookup-cong other _ k (
              stored-other (create_key id) (create_key other) (b ∷ bs) k
                (λ same. differ (sym (create_key_injective id other named named' same))))),
      )

  -- Over a cluster that answers, where no key of the first id is stored but one that its key begins,
  -- the etcd lookup says that the id exists, though it cannot be looked up.
  pub has-extended :
      (k : K) (id longer : ResourceId)
      → IsWellNamed id
      → IsWellNamed longer
      → Extends longer id
      → stored k (create_key id) ≡ none
      → stored k (create_key longer) ≢ none
      → (has C id k ≡ ok true) × (lookup C X id k ≡ err (not_found id))
  unfolding has lookup
  has-extended k id longer named named' longer_id absent present = (
    has_prefix_key-true C stored answers (create_key id) (create_key longer) k
        ((create_key-prefix_iff longer id named' named).1 longer_id) present,
    rw (get-absent C stored answers (create_key id) k absent, lookup) refl,
  )

  set_job-put :
      (k : K) (id : ResourceId) (schedule : Text)
      → EncodesJob X (temp_job (record { attempts = 0; resource = id; schedule = schedule }))
      → has_job C id k ≡ ok false
      → (t : Text) × (set_job C X id schedule k ≡ C.put (get_job_key id) t k)
  unfolding set_job put_serialized serialize_job
  set_job-put k id schedule e free = (e.t, rw (free, set_job) (rw (e.written, put_serialized) refl))

  set_job-taken :
      (k : K) (id : ResourceId) (schedule : Text)
      → has_job C id k ≡ ok true
      → set_job C X id schedule k ≡ (err job_already_set, k)
  unfolding set_job
  set_job-taken k id schedule h = rw (h, set_job) refl

  has_job-stored :
      (k : K) (id : ResourceId) → stored k (get_job_key id) ≢ none → has_job C id k ≡ ok true
  unfolding has_job
  has_job-stored k id there =
      has_prefix_key-true C stored answers (get_job_key id) (get_job_key id) k
        (has_prefix_refl (get_job_key id)) there

  resource_key-ne-job : (a b : ResourceId) → IsKnown a.type → get_job_key b ≢ create_key a
  resource_key-ne-job a b known same =
      ground (arith, job_key-ne-resource a b known, has_prefix_refl (get_job_key b), same)

  -- Over a cluster that answers, if no job of a resource exists and the new one can be encoded, it is
  -- set without an error, the next attempt to set one is refused and changes nothing, and the lookup
  -- of every id of a declared type answers as before.
  pub set_job_twice :
      (k : K) (id other : ResourceId) (schedule again : Text)
      → EncodesJob X (temp_job (record { attempts = 0; resource = id; schedule = schedule }))
      → has_job C id k ≡ ok false
      → IsKnown other.type
      → let after = (set_job C X id schedule k).1 in
        ((set_job C X id schedule k).0 ≡ ok tt)
        × (set_job C X id again after ≡ (err job_already_set, after))
        × (lookup C X other after ≡ lookup C X other k)
  set_job_twice k id other schedule again e free known =
      let (t, writes) = set_job-put k id schedule e free in
      rw writes (
        answers.put_ok (get_job_key id) t k,
        set_job-taken _ id again
            (has_job-stored _ id (λ gone. ground (arith, stored-same (get_job_key id) t k, gone))),
        lookup-cong other _ k (
            stored-other (get_job_key id) (create_key other) t k
              (resource_key-ne-job other id known)),
      )
