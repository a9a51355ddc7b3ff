-- ===== src/Metadata/Lookup.antt =====
-- metadata/metadata.go: the interface `ResourceLookup`, what a lookup that never fails promises, and
-- the in-memory implementation.
pub mod Local
use featureform.Common.{
  ◌≡◌, ◌≢◌, Bool, Option, none, some, List, is_some, if◌then◌else◌, Result, ok, err, Action, Map,
  find, ◌=?◌, In, All,
}
use featureform.Text.{Text}
use featureform.Metadata.Types.{ResourceId, ResourceType, ResourceStatus, Error, not_found, id_keys}
use featureform.Metadata.Messages.{Timestamp}
use featureform.Metadata.Resource.{Resource}

-- The operations, over the state `S` of an implementation. Those that only read return no state.
pub record ResourceLookup (S : Type 0) : Type 0 where
  pub lookup : ResourceId → S → Result Error Resource
  pub has : ResourceId → S → Result Error Bool
  pub set : ResourceId → Resource → Action Error S (Unit {0})
  pub submap : List ResourceId → S → Result Error (Map ResourceId Resource)
  pub list_for_type : ResourceType → S → Result Error (List Resource)
  -- A nil resource stands for a row that could not be read.
  pub list : S → Result Error (List (Option Resource))
  pub has_job : ResourceId → S → Result Error Bool
  pub set_job : ResourceId → Text → Action Error S (Unit {0})
  pub set_status : Timestamp → ResourceId → ResourceStatus → Action Error S (Unit {0})
  pub set_schedule : ResourceId → Text → Action Error S (Unit {0})

-- What the server's proofs need of a lookup that does not fail: it behaves as a map `view` from ids
-- to resources, and job and resource writes do not interfere.
pub record IsReliable {S : Type 0} (L : ResourceLookup S) (view : S → ResourceId → Option Resource)
    : Type 0 where
  pub has_lem : (id : ResourceId) (s : S) → L.has id s ≡ ok (is_some (view s id))
  pub set_ok : (id : ResourceId) (r : Resource) (s : S) → (L.set id r s).0 ≡ ok tt
  pub view-set :
      (id : ResourceId) (r : Resource) (s : S) (k : ResourceId)
      → view (L.set id r s).1 k ≡ (if id =? k then some r else view s k)
  pub set_job_ok : (id : ResourceId) (t : Text) (s : S) → (L.set_job id t s).0 ≡ ok tt
  pub view-set_job :
      (id : ResourceId) (t : Text) (s : S) (k : ResourceId) → view (L.set_job id t s).1 k ≡ view s k
  pub submap_ok :
      (ids : List ResourceId) (s : S)
      → All (λ k. view s k ≢ none) ids
      → (m : Map ResourceId Resource) × (L.submap ids s ≡ ok m)
  pub submap_missing :
      (ids : List ResourceId) (s : S) (k : ResourceId)
      → In k ids
      → view s k ≡ none
      → (j : ResourceId) × (L.submap ids s ≡ err (not_found j)) × (view s j ≡ none)
  -- The map holds the given ids, each with its resource, and nothing else.
  pub submap_sound :
      (ids : List ResourceId) (s : S) (m : Map ResourceId Resource)
      → L.submap ids s ≡ ok m
      → (k : ResourceId) (r : Resource) → In (k, r) m
      → In k ids × (view s k ≡ some r)
  pub submap_complete :
      (ids : List ResourceId) (s : S) (m : Map ResourceId Resource)
      → L.submap ids s ≡ ok m
      → (k : ResourceId) → In k ids
      → (r : Resource) × (find m k ≡ some r)
