-- ===== src/Metadata/Server/Failures.antt =====
-- `genericCreate` where it fails: what it returns, and what it has written by then.
use featureform.Common.{
  ℕ, ◌<◌, ◌≡◌, ◌≢◌, refl, ◌∙◌, inl, inr, Option, none, some, List, [], arith, ok, err, ◌↔◌,
  Option-cases, In,
}
use featureform.Metadata.Types.{ResourceId, Error, not_found, already_exists, id_keys, parent}
use featureform.Metadata.Names.{resource_named_safely}
use featureform.Metadata.Resource.{Resource, resource_id, dependencies}
use featureform.Metadata.Lookup.{ResourceLookup, IsReliable}
use featureform.Metadata.Server.{
  InitParentFn, check_new, generic_create, propagate_from, propagate_change,
}
use featureform.Metadata.Server.Graph.{Snapshot, DependsOn, DependsOn-rank, IsWellKeyed, IsIntact}
use featureform.Metadata.Server.Fetch.{dependencies-cases}
use featureform.Metadata.Server.Create.{
  IsRegistered, Starts, CanCreate, registered_state, generic_create-registered, IsRegistered-state,
}
use featureform.Metadata.Server.Created.{generic_create_lem, Grows-told}

-- A resource with a dependency that is missing, and that is not the parent, which is made.
pub record Dangles (g : Snapshot) (res : Resource) (init : Option InitParentFn) : Type 0 where
  pub starts : Starts g res init
  pub missing : ResourceId
  pub needed : DependsOn res missing
  pub absent : g missing ≡ none
  pub not_parent : parent (resource_id res) ≢ some missing

module _ {S : Type 0} (L : ResourceLookup S) (view : S → Snapshot) (rel : IsReliable L view)
    (order : List Resource → List Resource) where
  generic_create-rejected :
      (res : Resource) (init : Option InitParentFn) (s : S) (e : Error)
      → check_new L (resource_id res) s ≡ err e
      → generic_create L order res init s ≡ (err e, s)
  unfolding generic_create
  generic_create-rejected res init s e h = rw (h, generic_create)

  check_new-exists :
      (id : ResourceId) (s : S)
      → resource_named_safely id ≡ ok tt
      → view s id ≢ none
      → check_new L id s ≡ err (already_exists id)
  unfolding check_new
  check_new-exists id s named there = elim (Option-cases (view s id)) [
    | inl absent ↦ absurd (there absent)
    | inr (r, present) ↦ rw named (rw (rel.has_lem id s) (rw present))
  ]

  -- A resource that the store holds under a safe name is not created again: the call answers
  -- AlreadyExists and changes nothing.
  generic_create-exists :
      (res : Resource) (init : Option InitParentFn) (s : S)
      → resource_named_safely (resource_id res) ≡ ok tt
      → view s (resource_id res) ≢ none
      → generic_create L order res init s ≡ (err (already_exists (resource_id res)), s)
  generic_create-exists res init s named there =
      generic_create-rejected res init s _ (check_new-exists (resource_id res) s named there)

  -- Over a reliable lookup that is well keyed and intact: after a `genericCreate` that had what it
  -- needs, a second one with the same id, whatever the resource, answers AlreadyExists and changes
  -- nothing.
  pub generic_create_twice :
      ((r : Resource) (rs : List Resource) → In r (order rs) ↔ In r rs)
      → (res again : Resource) (init init' : Option InitParentFn) (s : S) → IsWellKeyed (view s)
      → IsIntact (view s)
      → CanCreate (view s) res init
      → resource_id again ≡ resource_id res
      → generic_create L order again init' (generic_create L order res init s).1
        ≡ (err (already_exists (resource_id res)), (generic_create L order res init s).1)
  generic_create_twice order_iff res again init init' s keyed intact can same =
      let (_, g, reg, t) =
        generic_create_lem L view rel order order_iff res init s keyed intact can in
      let s' = (generic_create L order res init s).1 in
      rw (← same) (
        generic_create-exists again init' s' (rw same can.starts.named) (
          rw same (Grows-told res g (view s') t (resource_id res) (λ gone. cc (reg.stored, gone)))))

  still_absent :
      (g g' : Snapshot) (res : Resource) (init : Option InitParentFn) (d : Dangles g res init)
      → IsRegistered g res init g'
      → g' d.missing ≡ none
  still_absent g g' res init d reg =
      elim (reg.others d.missing
        (λ e. lt-irrefl (rw e at (DependsOn-rank res d.missing d.needed)))) [
          | inl same ↦ same ∙ d.absent
          | inr (f, e, _, _, _) ↦ absurd (d.not_parent e)
        ]
    where
      lt-irrefl : {n : ℕ} → n < n → ⊥
      lt-irrefl h = omega arith

  propagate_change-dangling :
      (res : Resource) (s : S) (k : ResourceId)
      → DependsOn res k
      → view s k ≡ none
      → (j : ResourceId) × (propagate_change L order res s ≡ (err (not_found j), s))
        × (view s j ≡ none)
  unfolding propagate_change propagate_from
  propagate_change-dangling res s k (ids, e, i) absent =
      let (j, fails, gone) = rel.submap_missing ids s k i absent in
      elim (dependencies-cases (λ ids. L.submap ids s) res) [
        | inl asks ↦
            let failed : dependencies (λ ids. L.submap ids s) res ≡ err (not_found j) =
              asks ∙ rw e fails in
            (j, rw (failed, propagate_from), gone)
        | inr (_, none_named) ↦ let nothing : ids ≡ [] = cc in absurd (rw nothing at i)
      ]

  -- Over a reliable lookup: `genericCreate` of a new, safely named resource that names a dependency
  -- which the store lacks answers NotFound for an id that the store lacks, and leaves the resource in the store all the same.
  pub generic_create_dangling :
      (res : Resource) (init : Option InitParentFn) (s : S)
      → Dangles (view s) res init
      → (j : ResourceId) × ((generic_create L order res init s).0 ≡ err (not_found j))
        × (view (generic_create L order res init s).1 j ≡ none)
        × (view (generic_create L order res init s).1 (resource_id res) ≡ some res)
  generic_create_dangling res init s d =
      let s' = registered_state L view rel res init s in
      let reg = IsRegistered-state L view rel res init s d.starts in
      let (j, fails, gone) =
        propagate_change-dangling res s' d.missing d.needed
          (still_absent (view s) (view s') res init d reg) in
      rw (generic_create-registered L view rel order res init s d.starts)
        (rw fails (j, refl, gone, reg.stored))
