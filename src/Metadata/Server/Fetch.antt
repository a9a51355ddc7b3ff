-- ===== src/Metadata/Server/Fetch.antt =====
-- What `Dependencies` of a backed resource returns over a reliable lookup.
use featureform.Common.{
  ◌≡◌, refl, ◌∙◌, true, some, List, [], ◌∷◌, arith, Result, ok, ◌>>=◌, Map, find, is_some, In, inl,
  inr, ◌⊎◌, find-In, Bool-cases, Option-cases, is_some,
}
use featureform.Metadata.Types.{ResourceId, Error, id_keys}
use featureform.Metadata.Resource.{
  Resource, resource_id, dependency_ids, dependencies, is_direct_dependency,
  feature_variant_resource, label_variant_resource, training_set_variant_resource,
  source_variant_resource, model_resource,
}
use featureform.Metadata.Lookup.{ResourceLookup, IsReliable}
use featureform.Metadata.Lookup.Local.{list}
use featureform.Metadata.Server.Graph.{Snapshot, DependsOn, IsBacked}
use featureform.Metadata.Server.Notified.{member→In, In→member, is_dependency}

-- A resource that depends on nothing does not ask the lookup; the others do.
pub dependencies-cases :
    (submap : List ResourceId → Result Error (Map ResourceId Resource)) (r : Resource)
    → (dependencies submap r ≡ (dependency_ids r >>= submap))
      ⊎ (dependencies submap r ≡ ok []) × (dependency_ids r ≡ ok [])
unfolding dependencies dependency_ids
dependencies-cases submap (feature_variant_resource r) = inl refl
dependencies-cases submap (label_variant_resource r) = inl refl
dependencies-cases submap (training_set_variant_resource r) = inl refl
dependencies-cases submap (source_variant_resource r) = inl refl
dependencies-cases submap (model_resource r) = inl refl
dependencies-cases submap _ = inr (refl, refl)

-- `deps` holds the direct dependencies of `r` with what stands under them in the store.
pub record Holds (g : Snapshot) (r : Resource) (deps : Map ResourceId Resource) : Type 0 where
  pub sound : (k : ResourceId) (d : Resource) → In (k, d) deps → DependsOn r k × (g k ≡ some d)
  pub complete : (k : ResourceId) → DependsOn r k → (d : Resource) × (find deps k ≡ some d)

pub In-list :
    (k : ResourceId) (d : Resource) (m : Map ResourceId Resource) → In (k, d) m → In d (list m)
unfolding list
In-list k d [] i = absurd i
In-list k d ((j, w) ∷ m) (inl e) = inl (λ i. (e i).1)
In-list k d ((j, w) ∷ m) (inr i) = inr (In-list k d m i)

pub list-In :
    (d : Resource) (m : Map ResourceId Resource) → In d (list m) → (k : ResourceId) × In (k, d) m
unfolding list
list-In d [] i = absurd i
list-In d ((j, w) ∷ m) (inl e) = (j, inl (λ i. (j, e i)))
list-In d ((j, w) ∷ m) (inr i) = let (k, h) = list-In d m i in (k, inr h)

same_ids :
    {ids js : List ResourceId} (r : Resource)
    → dependency_ids r ≡ ok ids
    → dependency_ids r ≡ ok js
    → ids ≡ js
same_ids r e f = cc

module _ {S : Type 0} (L : ResourceLookup S) (view : S → Snapshot) (rel : IsReliable L view) (s : S)
    (r : Resource) where
  dependencies-Holds_of :
      (ids : List ResourceId)
      → dependency_ids r ≡ ok ids
      → (m : Map ResourceId Resource) → L.submap ids s ≡ ok m
      → Holds (view s) r m
  dependencies-Holds_of ids e m h = record {
    sound =
        λ k d i. let (named, found) = rel.submap_sound ids s m h k d i in ((ids, e, named), found);
    complete = λ k (js, f, i). rel.submap_complete ids s m h k (rw (same_ids r f e) at i);
  }

  -- Of a backed resource `Dependencies` succeeds.
  pub dependencies-Holds :
      IsBacked (view s) r
      → (m : Map ResourceId Resource) × (dependencies (λ ids. L.submap ids s) r ≡ ok m)
        × Holds (view s) r m
  dependencies-Holds (ids, e, present) = elim (dependencies-cases (λ ids. L.submap ids s) r) [
    | inl asks ↦
        let (m, h) = rel.submap_ok ids s present in
        (m, asks ∙ (rw e h), dependencies-Holds_of ids e m h)
    | inr (empty, none_named) ↦ (
      [],
      empty,
      record {
        sound = λ k d i. absurd i;
        complete = λ k (js, f, i). absurd (rw (same_ids r f none_named) at i);
      },
    )
  ]

  is_dependency-DependsOn :
      (k : ResourceId) → IsBacked (view s) r → is_dependency r k ≡ true → DependsOn r k
  unfolding is_dependency
  is_dependency-DependsOn k (ids, e, present) h = (ids, e, member→In k ids (ground (arith, e)))

  DependsOn-is_dependency : (k : ResourceId) → DependsOn r k → is_dependency r k ≡ true
  unfolding is_dependency
  DependsOn-is_dependency k (ids, e, i) = ground (arith, e, In→member k ids i)

  find-is_dependency :
      (m : Map ResourceId Resource) (k : ResourceId)
      → IsBacked (view s) r
      → Holds (view s) r m
      → is_some (find m k) ≡ is_dependency r k
  find-is_dependency m k backed holds = elim (Bool-cases (is_dependency r k)) [
    | inl named ↦
        let (d, found) = holds.complete k (is_dependency-DependsOn k backed named) in
        rw (found, named)
    | inr unnamed ↦ elim (Option-cases (find m k)) [
      | inl absent ↦ rw (absent, unnamed)
      | inr (d, found) ↦
          let named = DependsOn-is_dependency k (holds.sound k d (find-In m k d found)).0 in cc
    ]
  ]

  -- `isDirectDependency` answers rightly.
  pub is_direct_dependency_lem :
      IsBacked (view s) r
      → (d : Resource)
      → is_direct_dependency (λ ids. L.submap ids s) d r ≡ ok (is_dependency r (resource_id d))
  unfolding is_direct_dependency
  is_direct_dependency_lem backed d =
      let (m, fetched, holds) = dependencies-Holds backed in
      rw fetched (rw (find-is_dependency m (resource_id d) backed holds))
