-- ===== src/Metadata/Lookup/Local.antt =====
-- metadata/metadata.go: `localResourceLookup`, a Go map from ids to resources. A write through the
-- pointer that a lookup returned is a write to the map, so `SetStatus` and `SetSchedule` write back.
pub mod Laws
pub mod Updates
use featureform.Common.{
  Bool, false, Option, none, some, List, [], ◌∷◌, is_some, if◌then◌else◌, Result, ok, err, ◌>>=◌,
  Map, find, put, map,
}
use featureform.Text.{Text}
use featureform.Metadata.Types.{
  ResourceId, ResourceType, ResourceStatus, Error, not_found, id_keys, type_eq,
}
use featureform.Metadata.Messages.{Timestamp}
use featureform.Metadata.Resource.{Resource, update_status, update_schedule}
use featureform.Metadata.Lookup.{ResourceLookup}

abbrev pub LocalResourceLookup : Type 0
LocalResourceLookup = Map ResourceId Resource

or_not_found : ResourceId → Option Resource → Result Error Resource
or_not_found id none = err (not_found id)
or_not_found id (some r) = ok r

-- `Lookup`
unfoldable pub lookup : ResourceId → LocalResourceLookup → Result Error Resource
unfolding or_not_found
lookup id m = or_not_found id (find m id)

-- `Has`
unfoldable pub has : ResourceId → LocalResourceLookup → Result Error Bool
has id m = ok (is_some (find m id))

-- `Set`
unfoldable pub set :
    ResourceId → Resource → LocalResourceLookup → Result Error (Unit {0}) × LocalResourceLookup
set id r m = (ok tt, put m id r)

-- The loop of `Submap`, over the ids that are left.
unfoldable pub submap_loop :
    LocalResourceLookup
    → Map ResourceId Resource
    → List ResourceId
    → Result Error (Map ResourceId Resource)
submap_loop m resources [] = ok resources
submap_loop m resources (id ∷ ids) = elim (find m id) [
  | none ↦ err (not_found id)
  | some r ↦ submap_loop m (put resources id r) ids
]

-- `Submap`
unfoldable pub submap :
    List ResourceId → LocalResourceLookup → Result Error (Map ResourceId Resource)
unfolding submap_loop
submap ids m = submap_loop m [] ids

-- `List`, in the order of the entries.
unfoldable pub list : LocalResourceLookup → List Resource
list [] = []
list ((id, r) ∷ m) = r ∷ list m

-- `ListForType`, which selects by the key's type.
unfoldable pub list_for_type : ResourceType → LocalResourceLookup → List Resource
list_for_type t [] = []
list_for_type t ((id, r) ∷ m) =
    let rest = list_for_type t m in if type_eq id.type t then r ∷ rest else rest

-- `SetStatus`
unfoldable pub set_status :
    Timestamp
    → ResourceId
    → ResourceStatus
    → LocalResourceLookup
    → Result Error (Unit {0}) × LocalResourceLookup
set_status now id status m = elim (find m id) [
  | none ↦ (err (not_found id), m)
  | some r ↦ (ok tt, put m id (update_status now r status))
]

write_schedule :
    LocalResourceLookup
    → ResourceId
    → Result Error Resource
    → Result Error (Unit {0}) × LocalResourceLookup
write_schedule m id (err e) = (err e, m)
write_schedule m id (ok r) = (ok tt, put m id r)

-- `SetSchedule`
unfoldable pub set_schedule :
    ResourceId → Text → LocalResourceLookup → Result Error (Unit {0}) × LocalResourceLookup
unfolding write_schedule
set_schedule id schedule m = elim (find m id) [
  | none ↦ (err (not_found id), m)
  | some r ↦ write_schedule m id (update_schedule r schedule)
]

-- `HasJob`
unfoldable pub has_job : ResourceId → LocalResourceLookup → Result Error Bool
has_job id m = ok false

-- `SetJob`
unfoldable pub set_job :
    ResourceId → Text → LocalResourceLookup → Result Error (Unit {0}) × LocalResourceLookup
set_job id schedule m = (ok tt, m)

abbrev pub local_lookup : ResourceLookup LocalResourceLookup
local_lookup = record {
  lookup = lookup;
  has = has;
  set = set;
  submap = submap;
  list_for_type = λ t m. ok (list_for_type t m);
  list = λ m. ok (map some (list m));
  has_job = has_job;
  set_job = set_job;
  set_status = set_status;
  set_schedule = set_schedule;
}
