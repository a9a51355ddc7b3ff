-- ===== src/Metadata/Lookup/Local/Updates.antt =====
-- `SetStatus` and `SetSchedule` of the in-memory lookup.
use featureform.Common.{
  ◌≡◌, refl, Option, none, some, ok, err, ◌=?◌, find, find-put, [], if◌then◌else◌, Option-cases,
  inl, inr, ◌⊎◌,
}
use featureform.Text.{Text}
use featureform.Metadata.Types.{ResourceId, ResourceStatus, not_found, id_keys}
use featureform.Metadata.Messages.{Timestamp}
use featureform.Metadata.Resource.{
  Resource, resource_id, dependency_ids, update_status, update_schedule, schedule, feature_resource,
  label_resource, training_set_resource, source_resource, feature_variant_resource,
  label_variant_resource, training_set_variant_resource, source_variant_resource, model_resource,
  entity_resource, user_resource, provider_resource,
}
use featureform.Metadata.Lookup.Local.{LocalResourceLookup, set_status, set_schedule}

-- The status that a resource carries.
abbrev pub status_of : Resource → Option ResourceStatus
status_of (feature_resource g) = g.status
status_of (label_resource g) = g.status
status_of (training_set_resource g) = g.status
status_of (source_resource g) = g.status
status_of (feature_variant_resource r) = r.status
status_of (label_variant_resource r) = r.status
status_of (training_set_variant_resource r) = r.status
status_of (source_variant_resource r) = r.status
status_of (model_resource r) = r.status
status_of (entity_resource r) = r.status
status_of (user_resource r) = r.status
status_of (provider_resource r) = r.status

status_of-update_status :
    (now : Timestamp) (r : Resource) (st : ResourceStatus)
    → status_of (update_status now r st) ≡ some st
unfolding update_status
status_of-update_status now (feature_resource g) st = refl
status_of-update_status now _ st = refl

pub resource_id-update_status :
    (now : Timestamp) (r : Resource) (st : ResourceStatus)
    → resource_id (update_status now r st) ≡ resource_id r
unfolding update_status resource_id
resource_id-update_status now (feature_resource g) st = refl
resource_id-update_status now _ st = refl

dependency_ids-update_status :
    (now : Timestamp) (r : Resource) (st : ResourceStatus)
    → dependency_ids (update_status now r st) ≡ dependency_ids r
unfolding update_status dependency_ids
dependency_ids-update_status now (feature_resource g) st = refl
dependency_ids-update_status now _ st = refl

-- The resource with what a change of status writes taken out of it: the status, and the time of the
-- last update of the variants that keep it up to date.
abbrev pub without_status : Resource → Resource
without_status (feature_resource g) = feature_resource (record g { status = none })
without_status (label_resource g) = label_resource (record g { status = none })
without_status (training_set_resource g) = training_set_resource (record g { status = none })
without_status (source_resource g) = source_resource (record g { status = none })
without_status (feature_variant_resource r) =
    feature_variant_resource (record r { status = none; last_updated = none })
without_status (label_variant_resource r) = label_variant_resource (record r { status = none })
without_status (training_set_variant_resource r) =
    training_set_variant_resource (record r { status = none; last_updated = none })
without_status (source_variant_resource r) =
    source_variant_resource (record r { status = none; last_updated = none })
without_status (model_resource r) = model_resource (record r { status = none })
without_status (entity_resource r) = entity_resource (record r { status = none })
without_status (user_resource r) = user_resource (record r { status = none })
without_status (provider_resource r) = provider_resource (record r { status = none })

-- The time of the last update of a feature, training set or source variant.
abbrev pub last_updated_of : Resource → Option Timestamp
last_updated_of (feature_variant_resource r) = r.last_updated
last_updated_of (training_set_variant_resource r) = r.last_updated
last_updated_of (source_variant_resource r) = r.last_updated
last_updated_of _ = none

-- What that time is once the clock has read `now` for such a variant.
abbrev pub updated_at : Timestamp → Resource → Option Timestamp
updated_at now (feature_variant_resource r) = some now
updated_at now (training_set_variant_resource r) = some now
updated_at now (source_variant_resource r) = some now
updated_at now _ = none

without_status-update_status :
    (now : Timestamp) (r : Resource) (st : ResourceStatus)
    → without_status (update_status now r st) ≡ without_status r
unfolding update_status
without_status-update_status now (feature_resource g) st = refl
without_status-update_status now _ st = refl

last_updated_of-update_status :
    (now : Timestamp) (r : Resource) (st : ResourceStatus)
    → last_updated_of (update_status now r st) ≡ updated_at now r
unfolding update_status
last_updated_of-update_status now (feature_resource g) st = refl
last_updated_of-update_status now _ st = refl

-- What changes when one resource takes the status `st` at the time `now`: the status, the time of
-- the last update where the resource keeps one, and nothing else.
pub record TakesStatus (now : Timestamp) (st : ResourceStatus) (before after : Resource)
    : Type 0 where
  pub status : status_of after ≡ some st
  pub updated : last_updated_of after ≡ updated_at now before
  pub same_id : resource_id after ≡ resource_id before
  pub same_dependencies : dependency_ids after ≡ dependency_ids before
  pub same_rest : without_status after ≡ without_status before

-- `SetStatus` of an id that the store holds succeeds: the resource takes the status, a feature,
-- training set or source variant also takes the clock's time as that of its last update, all its
-- other fields are as they were, and so is every other resource. Of an id that the store lacks it
-- answers NotFound and changes nothing.
pub set_status_lem :
    (now : Timestamp) (id : ResourceId) (st : ResourceStatus) (m : LocalResourceLookup)
    → ((before : Resource) × (after : Resource) × (find m id ≡ some before)
        × ((set_status now id st m).0 ≡ ok tt)
        × TakesStatus now st before after
        × ((k : ResourceId)
            → find (set_status now id st m).1 k ≡ (if id =? k then some after else find m k)))
      ⊎ (find m id ≡ none) × (set_status now id st m ≡ (err (not_found id), m))
unfolding set_status
set_status_lem now id st m = elim (Option-cases (find m id)) [
  | inl absent ↦ inr (absent, rw (absent, set_status))
  | inr (r, present) ↦ inl (
    r,
    update_status now r st,
    present,
    rw (present, set_status),
    record {
      status = status_of-update_status now r st;
      updated = last_updated_of-update_status now r st;
      same_rest = without_status-update_status now r st;
      same_id = resource_id-update_status now r st;
      same_dependencies = dependency_ids-update_status now r st;
    },
    λ k. rw (present, set_status) (find-put m id (update_status now r st) k),
  )
]

-- The resources that can be scheduled.
abbrev pub HasSchedule : Resource → Type 0
HasSchedule (feature_variant_resource r) = Unit
HasSchedule (training_set_variant_resource r) = Unit
HasSchedule (source_variant_resource r) = Unit
HasSchedule _ = ⊥

-- The resource without its schedule.
abbrev pub without_schedule : Resource → Resource
without_schedule (feature_variant_resource r) =
    feature_variant_resource (record r { schedule = [] })
without_schedule (training_set_variant_resource r) =
    training_set_variant_resource (record r { schedule = [] })
without_schedule (source_variant_resource r) = source_variant_resource (record r { schedule = [] })
without_schedule r = r

update_schedule-ok :
    (r : Resource) (t : Text)
    → HasSchedule r
    → (after : Resource) × (update_schedule r t ≡ ok after)
      × (schedule after ≡ t)
      × (resource_id after ≡ resource_id r)
      × (status_of after ≡ status_of r)
      × (without_schedule after ≡ without_schedule r)
unfolding update_schedule schedule resource_id
update_schedule-ok (feature_variant_resource r) t h = (_, refl, refl, refl, refl, refl)
update_schedule-ok (training_set_variant_resource r) t h = (_, refl, refl, refl, refl, refl)
update_schedule-ok (source_variant_resource r) t h = (_, refl, refl, refl, refl, refl)
update_schedule-ok _ t h = absurd h

-- `SetSchedule` of a feature, training set or source variant that the store holds succeeds: the
-- resource then has the schedule, all its other fields are as they were, and so is every other
-- resource.
pub set_schedule-ok :
    (id : ResourceId) (t : Text) (m : LocalResourceLookup) (r : Resource)
    → find m id ≡ some r
    → HasSchedule r
    → (after : Resource) × ((set_schedule id t m).0 ≡ ok tt)
      × (schedule after ≡ t)
      × (resource_id after ≡ resource_id r)
      × (status_of after ≡ status_of r)
      × (without_schedule after ≡ without_schedule r)
      × ((k : ResourceId)
          → find (set_schedule id t m).1 k ≡ (if id =? k then some after else find m k))
unfolding set_schedule
set_schedule-ok id t m r present has =
    let (after, updated, scheduled, same, status, rest) = update_schedule-ok r t has in
    (
      after,
      rw (present, set_schedule) (rw updated),
      scheduled,
      same,
      status,
      rest,
      λ k. rw (present, set_schedule) (rw updated (find-put m id after k)),
    )
