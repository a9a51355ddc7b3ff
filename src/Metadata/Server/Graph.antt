-- ===== src/Metadata/Server/Graph.antt =====
-- The graph of dependencies among the resources of a snapshot `g` of the store, and what `Notify`
-- makes of a resource in it.
use featureform.Common.{
  ℕ, ◌<◌, ◌≡◌, ◌≢◌, Option, none, some, List, [], ◌∷◌, ◌++◌, map, arith, Result, ok, err, In, All,
  All-In,
}
use featureform.Metadata.Types.{
  ResourceId, ResourceType, Error, NameVariant, id_keys, feature, feature_variant, label_variant,
  training_set_variant, source_variant, model,
}
use featureform.Metadata.Resource.{
  Resource, resource_id, dependency_ids, feature_variant_resource, label_variant_resource,
  training_set_variant_resource, source_variant_resource, model_resource,
}

-- The contents of the store.
abbrev pub Snapshot : Type 0
Snapshot = ResourceId → Option Resource

-- `k` is among the ids that `Dependencies` of `r` looks up.
abbrev pub DependsOn : Resource → ResourceId → Type 0
DependsOn r k = (ids : List ResourceId) × (dependency_ids r ≡ ok ids) × In k ids

-- Every resource stands under its own id.
abbrev pub IsWellKeyed : Snapshot → Type 0
IsWellKeyed g = (k : ResourceId) (r : Resource) → g k ≡ some r → resource_id r ≡ k

-- The dependencies of `r` can be read off and all stand in the store.
abbrev pub IsBacked : Snapshot → Resource → Type 0
IsBacked g r = (ids : List ResourceId) × (dependency_ids r ≡ ok ids) × All (λ k. g k ≢ none) ids

-- Every resource is backed: no reference dangles.
abbrev pub IsIntact : Snapshot → Type 0
IsIntact g = (k : ResourceId) (r : Resource) → g k ≡ some r → IsBacked g r

-- A chain of dependencies from `root` to `k`, through the resources of the store.
pub data Reach (g : Snapshot) : Resource → ResourceId → Type 0 where
  direct : {root : Resource} {k : ResourceId} → DependsOn root k → Reach g root k
  through :
      {root : Resource} {j k : ResourceId} (r : Resource)
      → DependsOn root j
      → g j ≡ some r
      → Reach g r k
      → Reach g root k

-- How deep the dependencies of a resource of the type can go.
unfoldable pub rank : ResourceType → ℕ
rank model = 4
rank training_set_variant = 3
rank feature_variant = 2
rank label_variant = 2
rank source_variant = 1
rank _ = 0

pub rank-lt-5 : (t : ResourceType) → rank t < 5
unfolding rank
rank-lt-5 feature = omega arith
rank-lt-5 _ = omega arith

All-append {κ} :
    {A : Type 0} (P : A → Type κ) (xs ys : List A) → All P xs → All P ys → All P (xs ++ ys)
All-append P [] ys h k = k
All-append P (x ∷ xs) ys h k = (h.0, All-append P xs ys h.1 k)

All-ids :
    (n : ℕ) (t : ResourceType) (xs : List NameVariant)
    → rank t < n
    → All
        (λ (k : ResourceId). rank k.type < n)
        (map (λ x. record { name = x.name; variant = x.variant; type = t }) xs)
All-ids n t [] h = tt
All-ids n t (x ∷ xs) h = (h, All-ids n t xs h)

abbrev OnOk {κ} : {A : Type 0} → (A → Type κ) → Result Error A → Type κ
OnOk P (ok a) = P a
OnOk P (err e) = Unit

abbrev Below : ℕ → List ResourceId → Type 0
Below n = All (λ k. rank k.type < n)

variant-Below :
    (n : ℕ) (deps : NameVariant → List ResourceId) (o : Option NameVariant) (e : Error)
    → ((x : NameVariant) → Below n (deps x))
    → OnOk (Below n) (elim o [ none ↦ err e | some x ↦ ok (deps x) ])
variant-Below n deps none e h = tt
variant-Below n deps (some x) e h = h x

dependency_ids-Below : (r : Resource) → OnOk (Below (rank (resource_id r).type)) (dependency_ids r)
unfolding dependency_ids resource_id rank
dependency_ids-Below (feature_variant_resource r) = variant-Below 2 _ r.source _ (λ x. omega arith)
dependency_ids-Below (label_variant_resource r) = variant-Below 2 _ r.source _ (λ x. omega arith)
dependency_ids-Below (training_set_variant_resource r) = variant-Below 3 _ r.label _ (λ x. (
  omega arith,
  (omega arith, (omega arith, (omega arith, All-ids 3 feature_variant r.features (omega arith)))),
))
dependency_ids-Below (source_variant_resource r) = omega arith
dependency_ids-Below (model_resource r) =
    All-append _ _ _ (All-ids 4 feature_variant r.features (omega arith)) (
      All-append _ _ _ (All-ids 4 label_variant r.labels (omega arith))
        (All-ids 4 training_set_variant r.trainingsets (omega arith)))
dependency_ids-Below _ = tt

-- A dependency has a lower rank than what depends on it: the graph has no cycle.
pub DependsOn-rank :
    (r : Resource) (k : ResourceId) → DependsOn r k → rank k.type < rank (resource_id r).type
DependsOn-rank r k (ids, e, i) = All-In _ ids k (rw e at (dependency_ids-Below r)) i
