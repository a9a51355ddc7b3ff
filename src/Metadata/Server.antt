-- ===== src/Metadata/Server.antt =====
-- metadata/metadata.go: the operations of `MetadataServer` over any lookup: `genericCreate` with
-- `propogateChange`, the Create handlers, `SetResourceStatus`, `RequestScheduleChange`, and the
-- lookups behind the Get and List handlers. `order` is the order in which Go ranges over a map.
pub mod Graph
pub mod Notified
pub mod Fetch
pub mod Loop
pub mod Propagation
pub mod Propagated
pub mod Create
pub mod Created
pub mod Failures
use featureform.Common.{
  ℕ, zero, suc, Bool, true, false, Option, none, some, List, [], ◌∷◌, is_some, if◌then◌else◌,
  Result, ok, err, ◌>>=◌, ◌>>◌, Action, continue, ◌>=>◌, Map, find, put,
}
use featureform.Text.{Text}
use featureform.Metadata.Types.{
  ResourceId, ResourceType, ResourceStatus, Error, already_exists, nil_dereference, out_of_fuel,
  id_keys, parent, needs_job,
}
use featureform.Metadata.Names.{resource_named_safely}
use featureform.Metadata.Messages.{
  Timestamp, Group, FeatureVariant, LabelVariant, TrainingSetVariant, SourceVariant, Consumer, User,
  Provider,
}
use featureform.Metadata.Resource.{
  Resource, resource_id, schedule, dependencies, notify, feature_resource, label_resource,
  training_set_resource, source_resource, feature_variant_resource, label_variant_resource,
  training_set_variant_resource, source_variant_resource, model_resource, entity_resource,
  user_resource, provider_resource,
}
use featureform.Metadata.Lookup.{ResourceLookup}
use featureform.Metadata.Lookup.Local

-- `visited := make(map[ResourceID]struct{})`
abbrev pub Visited : Type 0
Visited = Map ResourceId (Unit {0})

-- `initParentFn`
abbrev pub InitParentFn : Type 0
InitParentFn = Text → Text → Resource

module _ {S : Type 0} (L : ResourceLookup S) where
  -- The end of the loop's body, after `Notify`: a failed `Set` makes the enclosing call return nil.
  after_set :
      Result Error (Unit {0}) × S
      → Visited
      → Action Error (S × Visited) (Unit {0})
      → Action Error (S × Visited) (Unit {0})
      → Result Error (Unit {0}) × (S × Visited)
  after_set (err e, s) v recur rest = (ok tt, (s, v))
  after_set (ok u, s) v recur rest = (recur >=> λ _. rest) (s, v)

  -- The loop's body for a resource not yet visited, from `Notify` on.
  after_notify :
      Result Error Resource
      → S
      → Visited
      → (Resource → Action Error (S × Visited) (Unit {0}))
      → Action Error (S × Visited) (Unit {0})
      → Result Error (Unit {0}) × (S × Visited)
  unfolding after_set
  after_notify (err e) s v recur rest = (err e, (s, v))
  after_notify (ok res) s v recur rest =
      after_set (L.set (resource_id res) res s) v (recur res) rest

  -- `for _, res := range depList`, where `recur` is the closure's call of itself.
  pub notify_loop :
      (Resource → Action Error (S × Visited) (Unit {0}))
      → Resource
      → List Resource
      → Action Error (S × Visited) (Unit {0})
  unfolding after_notify
  notify_loop recur new_res [] st = (ok tt, st)
  notify_loop recur new_res (res ∷ rest) (s, v) = elim (find v (resource_id res)) [
    | some u ↦ notify_loop recur new_res rest (s, v)
    | none ↦
        after_notify (notify (λ ids. L.submap ids s) res new_res) s (put v (resource_id res) tt)
          recur (notify_loop recur new_res rest)
  ]

  -- The closure `propogateChange` of the method of that name. The fuel bounds the depth of its calls.
  unfoldable pub propagate_from :
      (List Resource → List Resource)
      → ℕ
      → Resource
      → Resource
      → Action Error (S × Visited) (Unit {0})
  unfolding notify_loop
  propagate_from order zero new_res from st = (err out_of_fuel, st)
  propagate_from order (suc fuel) new_res from (s, v) =
      elim (dependencies (λ ids. L.submap ids s) from) [
        | err e ↦ (err e, (s, v))
        | ok deps ↦
            notify_loop (propagate_from order fuel new_res) new_res (order (Local.list deps)) (s, v)
      ]

  -- `MetadataServer.propogateChange`. Dependencies are at most five resources deep.
  unfoldable pub propagate_change :
      (List Resource → List Resource) → Resource → Action Error S (Unit {0})
  propagate_change order new_res s =
      let (r, st) = propagate_from order 5 new_res new_res (s, []) in (r, st.0)

  -- `genericCreate`, its middle part: a resource type that has jobs gets one.
  unfoldable pub create_job : ResourceId → Resource → Action Error S (Unit {0})
  create_job id res s =
      if needs_job (resource_id res).type then L.set_job id (schedule res) s else (ok tt, s)

  add_parent : Option InitParentFn → ResourceId → ResourceId → Action Error S (Unit {0})
  add_parent none id parent_id s = (err nil_dereference, s)
  add_parent (some init) id parent_id s = L.set parent_id (init id.name id.variant) s

  -- `genericCreate`: the parent of a variant is created with its first variant.
  unfoldable pub create_parent : Option InitParentFn → ResourceId → Action Error S (Unit {0})
  unfolding add_parent
  create_parent init id s = elim (parent id) [
    | none ↦ (ok tt, s)
    | some parent_id ↦ elim (L.has parent_id s) [
      | err e ↦ (err e, s)
      | ok true ↦ (ok tt, s)
      | ok false ↦ add_parent init id parent_id s
    ]
  ]

  -- The two tests at the head of `genericCreate`.
  unfoldable pub check_new : ResourceId → S → Result Error (Unit {0})
  check_new id s = do
    resource_named_safely id
    has ← L.has id s
    if has then err (already_exists id) else ok tt

  -- `genericCreate`
  unfoldable pub generic_create :
      (List Resource → List Resource) → Resource → Option InitParentFn → Action Error S (Unit {0})
  generic_create order res init s =
      let id = resource_id res in
      elim (check_new id s) [
        | err e ↦ (err e, s)
        | ok u ↦
            (L.set id res >=> λ _.
            create_job id res >=> λ _. create_parent init id >=> λ _. propagate_change order res)
              s
      ]
