-- ===== src/Metadata/Server/Create.antt =====
-- `genericCreate`: the steps before `propogateChange`, over a reliable lookup.
use featureform.Common.{
  ◌≡◌, ◌≢◌, refl, sym, subst, ◌∙◌, ◌⊎◌, inl, inr, Option, none, some, List, [], arith, Result, ok,
  >=>-ok, if◌then◌else◌, Bool-cases, Option-cases, All,
}
use featureform.Metadata.Types.{ResourceId, Error, id_keys, id_eq, id_eq_iff, parent}
use featureform.Metadata.Names.{resource_named_safely}
use featureform.Metadata.Resource.{Resource, resource_id, dependency_ids, schedule}
use featureform.Metadata.Lookup.{ResourceLookup, IsReliable}
use featureform.Metadata.Server.{
  InitParentFn, check_new, create_job, create_parent, generic_create, propagate_change,
}
use featureform.Metadata.Server.Graph.{Snapshot}

-- The store after the new resource, and its parent if there was none, were written.
pub record IsRegistered (g : Snapshot) (res : Resource) (init : Option InitParentFn) (g' : Snapshot)
    : Type 0 where
  pub stored : g' (resource_id res) ≡ some res
  pub parent_stored : (p : ResourceId) → parent (resource_id res) ≡ some p → g' p ≢ none
  pub others :
      (k : ResourceId)
      → k ≢ resource_id res
      → (g' k ≡ g k)
        ⊎ ((f : InitParentFn) × (parent (resource_id res) ≡ some k)
            × (g k ≡ none)
            × (init ≡ some f)
            × (g' k ≡ some (f (resource_id res).name (resource_id res).variant)))

-- What `genericCreate` needs to get as far as `propogateChange`.
pub record Starts (g : Snapshot) (res : Resource) (init : Option InitParentFn) : Type 0 where
  pub named : resource_named_safely (resource_id res) ≡ ok tt
  pub fresh : g (resource_id res) ≡ none
  pub makes :
      (p : ResourceId) → parent (resource_id res) ≡ some p → (f : InitParentFn) × (init ≡ some f)

-- What `genericCreate` needs to succeed.
pub record CanCreate (g : Snapshot) (res : Resource) (init : Option InitParentFn) : Type 0 where
  pub starts : Starts g res init
  -- The dependencies can be read off, and each stands in the store or is the parent.
  pub ids : List ResourceId
  pub ids_read : dependency_ids res ≡ ok ids
  pub ids_there : All (λ k. (g k ≢ none) ⊎ (parent (resource_id res) ≡ some k)) ids
  -- The caller knows how to make the parent, if the type has one.
  pub parents :
      (p : ResourceId)
      → parent (resource_id res) ≡ some p
      → (f : InitParentFn) × (init ≡ some f)
        × (resource_id (f (resource_id res).name (resource_id res).variant) ≡ p)
        × (dependency_ids (f (resource_id res).name (resource_id res).variant) ≡ ok [])

module _ {S : Type 0} (L : ResourceLookup S) (view : S → Snapshot) (rel : IsReliable L view) where
  check_new-ok :
      (id : ResourceId) (s : S)
      → resource_named_safely id ≡ ok tt
      → view s id ≡ none
      → check_new L id s ≡ ok tt
  unfolding check_new
  check_new-ok id s named fresh = rw named (rw (rel.has_lem id s) (rw fresh))

  create_job-ok : (id : ResourceId) (res : Resource) (s : S) → (create_job L id res s).0 ≡ ok tt
  unfolding create_job
  create_job-ok id res s = ground (arith, rel.set_job_ok id (schedule res) s)

  view-create_job :
      (id : ResourceId) (res : Resource) (s : S) (k : ResourceId)
      → view (create_job L id res s).1 k ≡ view s k
  unfolding create_job
  view-create_job id res s k = ground (arith, rel.view-set_job id (schedule res) s k)

  -- What the step that creates the parent does.
  record ParentStep (init : Option InitParentFn) (id : ResourceId) (s : S)
      (out : Result Error (Unit {0}) × S) : Type 0 where
    returns : out.0 ≡ ok tt
    parent_stored : (p : ResourceId) → parent id ≡ some p → view out.1 p ≢ none
    others :
        (k : ResourceId)
        → (view out.1 k ≡ view s k)
          ⊎ ((f : InitParentFn) × (parent id ≡ some k)
              × (view s k ≡ none)
              × (init ≡ some f)
              × (view out.1 k ≡ some (f id.name id.variant)))

  create_parent-unchanged :
      (init : Option InitParentFn) (id : ResourceId) (s : S)
      → ((p : ResourceId) → parent id ≡ some p → view s p ≢ none)
      → create_parent L init id s ≡ (ok tt, s)
  unfolding create_parent
  create_parent-unchanged init id s there = elim (Option-cases (parent id)) [
    | inl orphan ↦ rw (orphan, create_parent)
    | inr (p, e) ↦ elim (Option-cases (view s p)) [
      | inl absent ↦ absurd (there p e absent)
      | inr (r, present) ↦ rw (e, create_parent) (rw (rel.has_lem p s, create_parent) (rw present))
    ]
  ]

  create_parent-added :
      (f : InitParentFn) (id p : ResourceId) (s : S)
      → parent id ≡ some p
      → view s p ≡ none
      → create_parent L (some f) id s ≡ L.set p (f id.name id.variant) s
  unfolding create_parent
  create_parent-added f id p s e absent =
      rw (e, create_parent) (rw (rel.has_lem p s, create_parent) (rw absent))

  unchanged-ParentStep :
      (init : Option InitParentFn) (id : ResourceId) (s : S)
      → ((p : ResourceId) → parent id ≡ some p → view s p ≢ none)
      → ParentStep init id s (create_parent L init id s)
  unchanged-ParentStep init id s there =
      rw (create_parent-unchanged init id s there)
        (record { returns = refl; parent_stored = there; others = λ k. inl refl })

  added-ParentStep :
      (f : InitParentFn) (id p : ResourceId) (s : S)
      → parent id ≡ some p
      → view s p ≡ none
      → ParentStep (some f) id s (create_parent L (some f) id s)
  added-ParentStep f id p s e absent =
      let made = f id.name id.variant in
      rw (create_parent-added f id p s e absent) (record {
        returns = rel.set_ok p made s;
        parent_stored = λ q h. ground (arith, rel.view-set p made s q, e, h, id_eq_iff p q);
        others = λ k. elim (Bool-cases (id_eq p k)) [
          | inl same ↦
              let there = (id_eq_iff p k).0 same in
              inr (
                f,
                cc (e, there),
                cc (absent, there),
                refl,
                ground (arith, rel.view-set p made s k, same),
              )
          | inr other ↦ inl (ground (arith, rel.view-set p made s k, other))
        ];
      })

  create_parent-ParentStep :
      (init : Option InitParentFn) (id : ResourceId) (s : S)
      → ((p : ResourceId) → parent id ≡ some p → (f : InitParentFn) × (init ≡ some f))
      → ParentStep init id s (create_parent L init id s)
  create_parent-ParentStep init id s makes = elim (Option-cases (parent id)) [
    | inl orphan ↦ unchanged-ParentStep init id s (λ p e. cc (orphan, e))
    | inr (p, e) ↦ elim (Option-cases (view s p)) [
      | inl absent ↦
          let (f, given) = makes p e in
          subst (λ i. ParentStep i id s (create_parent L i id s)) (sym given)
            (added-ParentStep f id p s e absent)
      | inr (r, present) ↦ unchanged-ParentStep init id s (λ q h. ground (arith, e, h, present))
    ]
  ]

  -- The state in which `propogateChange` starts.
  pub registered_state : Resource → Option InitParentFn → S → S
  registered_state res init s =
      let s₁ = (L.set (resource_id res) res s).1 in
      let s₂ = (create_job L (resource_id res) res s₁).1 in
      (create_parent L init (resource_id res) s₂).1

  view-job :
      (res : Resource) (s : S) (k : ResourceId)
      → view (create_job L (resource_id res) res (L.set (resource_id res) res s).1).1 k
        ≡ (if id_eq (resource_id res) k then some res else view s k)
  view-job res s k =
      view-create_job (resource_id res) res (L.set (resource_id res) res s).1 k
      ∙ rel.view-set (resource_id res) res s k

  pub generic_create-registered :
      (order : List Resource → List Resource) (res : Resource) (init : Option InitParentFn) (s : S)
      → Starts (view s) res init
      → generic_create L order res init s
        ≡ propagate_change L order res (registered_state res init s)
  unfolding generic_create registered_state
  generic_create-registered order res init s start =
      let id = resource_id res in
      let s₁ = (L.set id res s).1 in
      let s₂ = (create_job L id res s₁).1 in
      let step = create_parent-ParentStep init id s₂ start.makes in
      rw (check_new-ok id s start.named start.fresh, generic_create)
        (>=>-ok (L.set id res) _ s tt (rel.set_ok id res s)
          ∙ >=>-ok (create_job L id res) _ s₁ tt (create_job-ok id res s₁)
          ∙ >=>-ok (create_parent L init id) _ s₂ tt step.returns)

  pub IsRegistered-state :
      (res : Resource) (init : Option InitParentFn) (s : S)
      → Starts (view s) res init
      → IsRegistered (view s) res init (view (registered_state res init s))
  unfolding registered_state
  IsRegistered-state res init s start =
      let id = resource_id res in
      let s₂ = (create_job L id res (L.set id res s).1).1 in
      let step = create_parent-ParentStep init id s₂ start.makes in
      let job = view-job res s in
      record {
        stored = elim (step.others id) [
          | inl same ↦ ground (arith, same, job id, id_eq_iff id id)
          | inr (f, e, absent, given, made) ↦ ground (arith, absent, job id, id_eq_iff id id)
        ];
        parent_stored = step.parent_stored;
        others = λ k ne. elim (step.others k) [
          | inl same ↦ inl (ground (arith, same, job k, id_eq_iff id k))
          | inr (f, e, absent, given, made) ↦
              inr (f, e, ground (arith, absent, job k, id_eq_iff id k), given, made)
        ];
      }
