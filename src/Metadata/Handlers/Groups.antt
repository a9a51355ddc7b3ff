-- ===== src/Metadata/Handlers/Groups.antt =====
-- The feature that `CreateFeatureVariant` keeps for its variants.
use featureform.Common.{
  ◌≡◌, ◌≢◌, refl, sym, subst, ap, ◌∙◌, inl, inr, Option, none, some, List, [], ◌∷◌, ◌++◌, arith,
  Result, ok, In, ◌↔◌, Option-cases,
}
use featureform.Text.{Text, text_eq_iff}
use featureform.Metadata.Types.{
  ResourceId, NameVariant, Error, id_keys, parent, feature, source_variant, entity, user, provider,
  type_eq,
}
use featureform.Metadata.Messages.{Timestamp, Group, FeatureVariant}
use featureform.Metadata.Resources.FeatureVariants
use featureform.Metadata.Resources.Groups
use featureform.Metadata.Resource.{
  Resource, resource_id, dependency_ids, feature_resource, feature_variant_resource,
}
use featureform.Metadata.Lookup.{ResourceLookup, IsReliable}
use featureform.Metadata.Server.{InitParentFn}
use featureform.Metadata.Server.Graph.{Snapshot, IsWellKeyed, IsIntact, direct}
use featureform.Metadata.Server.Notified.{notified}
use featureform.Metadata.Server.Create.{IsRegistered, CanCreate}
use featureform.Metadata.Server.Created.{generic_create_lem}
use featureform.Metadata.Handlers.{first_group, create_feature_variant}

-- The variants that the store lists for a feature, none if it has no such feature.
abbrev pub variants_of : Option Resource → List Text
variants_of none = []
variants_of (some (feature_resource g)) = g.variants
variants_of (some _) = []

-- The id of the feature of a variant.
abbrev pub feature_id : FeatureVariant → ResourceId
feature_id v = record { name = v.name; variant = []; type = feature }

is_feature :
    (r : Resource) (v : FeatureVariant)
    → resource_id r ≡ feature_id v
    → (g : Group) × (r ≡ feature_resource g) × (g.name ≡ v.name)
unfolding resource_id
is_feature (feature_resource g) v h = (g, refl, ap (λ (i : ResourceId). i.name) h)
is_feature _ v h = ground (arith, ap (λ (i : ResourceId). i.type) h)

feature_listed :
    (v : FeatureVariant) (ids : List ResourceId)
    → dependency_ids (feature_variant_resource v) ≡ ok ids
    → In (feature_id v) ids
unfolding dependency_ids
feature_listed v ids h = elim (Option-cases v.source) [
  | inl absent ↦ ground (arith, absent)
  | inr (s, present) ↦
      subst (In (feature_id v)) (ok_injective (sym (read s present) ∙ h))
        (inr (inr (inr (inr (inl refl)))))
]
  where
    ok_injective :
        {a b : List ResourceId} → ◌≡◌ {A = Result Error (List ResourceId)} (ok a) (ok b) → a ≡ b
    ok_injective e = cc

    read :
        (s : NameVariant)
        → v.source ≡ some s
        → dependency_ids (feature_variant_resource v)
          ≡ ok (
              record { name = s.name; variant = s.variant; type = source_variant }
              ∷ record { name = v.entity; variant = []; type = entity }
              ∷ record { name = v.owner; variant = []; type = user }
              ∷ record { name = v.provider; variant = []; type = provider }
              ∷ feature_id v
              ∷ [])
    read s e = rw (e, FeatureVariants.dependency_ids)

notified-lists :
    (v : FeatureVariant) (g : Group)
    → g.name ≡ v.name
    → variants_of (some (notified (feature_variant_resource v) (feature_resource g)))
      ≡ g.variants ++ v.variant ∷ []
unfolding notified resource_id Groups.notify_feature type_eq
notified-lists v g e = ground (arith, text_eq_iff v.name g.name)

parent-feature :
    (v : FeatureVariant) → parent (resource_id (feature_variant_resource v)) ≡ some (feature_id v)
unfolding parent resource_id
parent-feature v = refl

feature_ne_variant : (v : FeatureVariant) → feature_id v ≢ resource_id (feature_variant_resource v)
unfolding resource_id
feature_ne_variant v e = ground (arith, ap (λ (i : ResourceId). i.type) e)

-- The feature after the registration of its variant: the one of before, or a new one.
registered-variants :
    (v : FeatureVariant) (g g' : Snapshot)
    → IsWellKeyed g
    → IsRegistered g
        (feature_variant_resource v)
        (some (λ n x. feature_resource (first_group n x)))
        g'
    → (f : Group) × (g' (feature_id v) ≡ some (feature_resource f))
      × (f.name ≡ v.name)
      × (f.variants ≡ variants_of (g (feature_id v)))
unfolding resource_id
registered-variants v g g' keyed reg = elim (reg.others (feature_id v) (feature_ne_variant v)) [
  | inl same ↦ elim (Option-cases (g (feature_id v))) [
    | inl absent ↦ absurd (reg.parent_stored (feature_id v) (parent-feature v) (same ∙ absent))
    | inr (r, there) ↦
        let (f, is_f, named) = is_feature r v (keyed (feature_id v) r there) in
        (f, cc (same, there, is_f), named, rw there (rw is_f))
  ]
  | inr (init, e, absent, given, made) ↦
      let same : init ≡ (λ n x. feature_resource (first_group n x)) = init_injective (sym given) in
      (
        first_group v.name v.variant,
        made ∙ ap (λ (h : InitParentFn). some (h v.name v.variant)) same,
        refl,
        rw absent,
      )
]
  where
    init_injective : {a b : InitParentFn} → ◌≡◌ {A = Option InitParentFn} (some a) (some b) → a ≡ b
    init_injective e = cc

module _ {S : Type 0} (L : ResourceLookup S) (view : S → Snapshot) (rel : IsReliable L view)
    (order : List Resource → List Resource)
    (order_iff : (r : Resource) (rs : List Resource) → In r (order rs) ↔ In r rs) where
  -- Over a reliable lookup that is well keyed and intact: `CreateFeatureVariant` of a variant that is
  -- named safely, is new, and whose dependencies stand in the store, succeeds, and the feature then
  -- lists the variants that it listed before, none if it was missing, and after them the new one.
  pub create_feature_variant-lists :
      (now : Timestamp) (v : FeatureVariant) (s : S)
      → IsWellKeyed (view s)
      → IsIntact (view s)
      → CanCreate
          (view s)
          (feature_variant_resource (record v { created = some now }))
          (some (λ n x. feature_resource (first_group n x)))
      → ((create_feature_variant L order now v s).0 ≡ ok tt)
        × (variants_of (view (create_feature_variant L order now v s).1 (feature_id v))
            ≡ variants_of (view s (feature_id v)) ++ v.variant ∷ [])
  unfolding create_feature_variant
  create_feature_variant-lists now v s keyed intact can =
      let v' = record v { created = some now } in
      let res = feature_variant_resource v' in
      let init = some (λ n x. feature_resource (first_group n x)) in
      let (returns, g, reg, t) =
        generic_create_lem L view rel order order_iff res init s keyed intact can in
      let (f, stands, named, listed) = registered-variants v' (view s) g keyed reg in
      let seen =
        (t.visited_iff (feature_id v)).1
          (direct (can.ids, can.ids_read, feature_listed v' can.ids can.ids_read)) in
      (
        returns,
        rw (t.each (feature_id v)) (
            rw seen (rw stands (notified-lists v' f named ∙ ap (λ l. l ++ v.variant ∷ []) listed))),
      )
