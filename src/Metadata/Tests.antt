-- ===== src/Metadata/Tests.antt =====
-- Runs of the metadata service on a small store, and its theorems at inputs that meet their
-- hypotheses.
use featureform.Common.{
  ◌≡◌, refl, Option, none, some, [], ◌∷◌, ◌++◌, inl, inr, ok, err, find, arith,
}
use featureform.Common.{true, false, ◌↔◌, ◌=?◌, if◌then◌else◌, ◌⊎◌}
use featureform.Metadata.Types.{feature_variant}
use featureform.Metadata.Names.Safety.{IsSafe, resource_named_safely_iff}
use featureform.Metadata.Keys.{create_key, get_job_key}
use featureform.Metadata.Keys.Prefixes.{
  IsWellNamed, Extends, create_key-prefix_iff, create_key_injective, job_key-ne-resource,
}
use featureform.Metadata.Lookup.Local.{set_status, set_schedule}
use featureform.Metadata.Lookup.Local.Updates.{
  TakesStatus, set_status_lem, set_schedule-ok, status_of, without_schedule,
}
use featureform.Metadata.Samples.{a_status}
use featureform.Text.{bytes, has_prefix, has_suffix, contains, text_eq}
use featureform.Metadata.Types.{
  ResourceId, id_keys, id_eq, type_eq, type_code, provider, source_variant, parent, already_exists,
  not_found,
}
use featureform.Metadata.Names.{resource_named_safely}
use featureform.Metadata.Messages.{FeatureVariant}
use featureform.Metadata.Resource.{
  Resource, resource_id, schedule, dependency_ids, feature_resource, feature_variant_resource,
  source_variant_resource,
}
use featureform.Metadata.Lookup.Local.{local_lookup}
use featureform.Metadata.Lookup.Local.Laws.{local_lookup-IsReliable}
use featureform.Metadata.Server.{generic_create, propagate_change}
use featureform.Metadata.Server.Graph.{IsWellKeyed, IsIntact, IsBacked}
use featureform.Metadata.Server.Propagated.{IsTold, propagate_change_lem}
use featureform.Metadata.Server.Create.{CanCreate, IsRegistered}
use featureform.Metadata.Server.Created.{generic_create_lem, generic_create-IsIntact}
use featureform.Metadata.Server.Failures.{generic_create_twice, generic_create_dangling, Dangles}
use featureform.Metadata.Handlers.{first_group, create_feature_variant}
use featureform.Metadata.Handlers.Groups.{create_feature_variant-lists, variants_of, feature_id}
use featureform.Metadata.Samples.{
  IsWellKeyed-entries, IsIntact-entries, store, in_order, in_order_iff, a_feature_variant,
  a_source_variant,
}

store-IsWellKeyed : IsWellKeyed (find store)
unfolding resource_id
store-IsWellKeyed = IsWellKeyed-entries store (refl, (refl, (refl, (refl, (refl, tt)))))

store-IsIntact : IsIntact (find store)
unfolding dependency_ids find id_eq type_eq type_code text_eq
store-IsIntact = IsIntact-entries store (
  ([], refl, tt),
  (
    ([], refl, tt),
    (
      ([], refl, tt),
      (([], refl, tt), ((_, refl, (ground arith, (ground arith, (ground arith, tt)))), tt)),
    ),
  ),
)

abbrev created : FeatureVariant
created = record a_feature_variant { created = some 7 }

feature_variant-CanCreate :
    CanCreate
      (find store)
      (feature_variant_resource created)
      (some (λ n x. feature_resource (first_group n x)))
unfolding dependency_ids resource_id find id_eq type_eq type_code text_eq parent
    resource_named_safely contains has_prefix has_suffix
feature_variant-CanCreate = record {
  starts = record {
    named = refl;
    fresh = refl;
    makes = λ p e. (λ n x. feature_resource (first_group n x), refl);
  };
  ids = _;
  ids_read = refl;
  ids_there = (
    inl (ground arith),
    (inl (ground arith), (inl (ground arith), (inl (ground arith), (inr refl, tt)))),
  );
  parents = λ p e. (λ n x. feature_resource (first_group n x), refl, ground arith, refl);
}

abbrev new_resource : Resource
new_resource = feature_variant_resource created

generic_create_example :
    ((generic_create local_lookup in_order new_resource
        (some (λ n x. feature_resource (first_group n x)))
        store).0
      ≡ ok tt)
    × (g : ResourceId → Option Resource) × IsRegistered
        (find store)
        new_resource
        (some (λ n x. feature_resource (first_group n x)))
        g
    × IsTold new_resource g (
        find
          (generic_create local_lookup in_order new_resource
            (some (λ n x. feature_resource (first_group n x)))
            store).1)
generic_create_example =
    generic_create_lem local_lookup find local_lookup-IsReliable in_order in_order_iff new_resource
      (some (λ n x. feature_resource (first_group n x))) store store-IsWellKeyed store-IsIntact
      feature_variant-CanCreate

generic_create-IsIntact_example :
    IsWellKeyed (
      find
        (generic_create local_lookup in_order new_resource
          (some (λ n x. feature_resource (first_group n x)))
          store).1)
    × IsIntact (
        find
          (generic_create local_lookup in_order new_resource
            (some (λ n x. feature_resource (first_group n x)))
            store).1)
generic_create-IsIntact_example =
    generic_create-IsIntact local_lookup find local_lookup-IsReliable in_order in_order_iff
      new_resource (some (λ n x. feature_resource (first_group n x))) store store-IsWellKeyed
      store-IsIntact feature_variant-CanCreate

create_feature_variant_example :
    ((create_feature_variant local_lookup in_order 7 a_feature_variant store).0 ≡ ok tt)
    × (variants_of (
          find
            (create_feature_variant local_lookup in_order 7 a_feature_variant store).1
            (feature_id a_feature_variant))
        ≡ variants_of (find store (feature_id a_feature_variant)) ++ bytes "v2" ∷ [])
create_feature_variant_example =
    create_feature_variant-lists local_lookup find local_lookup-IsReliable in_order in_order_iff 7
      a_feature_variant store store-IsWellKeyed store-IsIntact feature_variant-CanCreate

generic_create_twice_example :
    generic_create local_lookup in_order new_resource none
      (generic_create local_lookup in_order new_resource
        (some (λ n x. feature_resource (first_group n x)))
        store).1
    ≡ (
      err (already_exists (resource_id new_resource)),
      (generic_create local_lookup in_order new_resource
          (some (λ n x. feature_resource (first_group n x)))
          store).1,
    )
generic_create_twice_example =
    generic_create_twice local_lookup find local_lookup-IsReliable in_order in_order_iff
      new_resource new_resource (some (λ n x. feature_resource (first_group n x))) none store
      store-IsWellKeyed store-IsIntact feature_variant-CanCreate refl

-- A source variant whose provider the store lacks.
abbrev dangling : Resource
dangling =
    source_variant_resource
      (record a_source_variant { variant = bytes "v3"; provider = bytes "spark" })

dangling-Dangles : Dangles (find store) dangling (some (λ n x. feature_resource (first_group n x)))
unfolding dependency_ids resource_id find id_eq type_eq type_code text_eq parent
    resource_named_safely contains has_prefix has_suffix
dangling-Dangles = record {
  starts = record {
    named = refl;
    fresh = refl;
    makes = λ p e. (λ n x. feature_resource (first_group n x), refl);
  };
  missing = record { name = bytes "spark"; variant = []; type = provider };
  needed = (_, refl, inr (inl refl));
  absent = refl;
  not_parent = λ e. ground arith;
}

generic_create_dangling_example :
    (j : ResourceId) × ((generic_create local_lookup in_order dangling
        (some (λ n x. feature_resource (first_group n x)))
        store).0
      ≡ err (not_found j))
    × (find
          (generic_create local_lookup in_order dangling
            (some (λ n x. feature_resource (first_group n x)))
            store).1
          j
        ≡ none)
    × (find
          (generic_create local_lookup in_order dangling
            (some (λ n x. feature_resource (first_group n x)))
            store).1
          (resource_id dangling)
        ≡ some dangling)
generic_create_dangling_example =
    generic_create_dangling local_lookup find local_lookup-IsReliable in_order dangling
      (some (λ n x. feature_resource (first_group n x))) store dangling-Dangles

abbrev spend_v1 : ResourceId
spend_v1 = record { name = bytes "spend"; variant = bytes "v1"; type = feature_variant }

abbrev spend_v12 : ResourceId
spend_v12 = record { name = bytes "spend"; variant = bytes "v12"; type = feature_variant }

spend_v1-accepted : resource_named_safely spend_v1 ≡ ok tt
unfolding resource_named_safely contains has_prefix has_suffix text_eq
spend_v1-accepted = refl

resource_named_safely_example :
    (resource_named_safely spend_v1 ≡ ok tt) ↔ IsSafe (bytes "spend") × IsSafe (bytes "v1")
resource_named_safely_example = resource_named_safely_iff spend_v1

spend_v1-IsWellNamed : IsWellNamed spend_v1
spend_v1-IsWellNamed = record {
  known = tt;
  name = ((resource_named_safely_iff spend_v1).0 spend_v1-accepted).0;
}

spend_v12-IsWellNamed : IsWellNamed spend_v12
spend_v12-IsWellNamed = record { known = tt; name = spend_v1-IsWellNamed.name }

create_key-prefix_example :
    (has_prefix (create_key spend_v12) (create_key spend_v1) ≡ true) ↔ Extends spend_v12 spend_v1
create_key-prefix_example =
    create_key-prefix_iff spend_v12 spend_v1 spend_v12-IsWellNamed spend_v1-IsWellNamed

create_key_injective_example : spend_v1 ≡ spend_v1
create_key_injective_example =
    create_key_injective spend_v1 spend_v1 spend_v1-IsWellNamed spend_v1-IsWellNamed refl

job_key_example : has_prefix (create_key spend_v1) (get_job_key spend_v12) ≡ false
job_key_example = job_key-ne-resource spend_v1 spend_v12 tt

set_status_example :
    ((before : Resource) × (after : Resource) × (find store (feature_id a_feature_variant)
        ≡ some before)
      × ((set_status 5 (feature_id a_feature_variant) a_status store).0 ≡ ok tt)
      × TakesStatus 5 a_status before after
      × ((k : ResourceId)
          → find (set_status 5 (feature_id a_feature_variant) a_status store).1 k
            ≡ (if feature_id a_feature_variant =? k then some after else find store k)))
    ⊎ (find store (feature_id a_feature_variant) ≡ none)
      × (set_status 5 (feature_id a_feature_variant) a_status store
          ≡ (err (not_found (feature_id a_feature_variant)), store))
set_status_example = set_status_lem 5 (feature_id a_feature_variant) a_status store

abbrev log_v1 : ResourceId
log_v1 = record { name = bytes "log"; variant = bytes "v1"; type = source_variant }

log_v1-IsBacked : IsBacked (find store) (source_variant_resource a_source_variant)
unfolding dependency_ids find id_eq type_eq type_code text_eq
log_v1-IsBacked = (_, refl, (ground arith, (ground arith, (ground arith, tt))))

log_v1-stored : find store log_v1 ≡ some (source_variant_resource a_source_variant)
unfolding find id_eq type_eq type_code text_eq
log_v1-stored = refl

propagate_change_example :
    ((propagate_change local_lookup in_order (source_variant_resource a_source_variant) store).0
      ≡ ok tt)
    × IsTold (source_variant_resource a_source_variant) (find store) (
        find
          (propagate_change local_lookup in_order
            (source_variant_resource a_source_variant)
            store).1)
propagate_change_example =
    propagate_change_lem local_lookup find local_lookup-IsReliable in_order in_order_iff
      (source_variant_resource a_source_variant) store store-IsWellKeyed store-IsIntact
      log_v1-IsBacked

set_schedule_example :
    (after : Resource) × ((set_schedule log_v1 (bytes "@daily") store).0 ≡ ok tt)
    × (schedule after ≡ bytes "@daily")
    × (resource_id after ≡ resource_id (source_variant_resource a_source_variant))
    × (status_of after ≡ status_of (source_variant_resource a_source_variant))
    × (without_schedule after ≡ without_schedule (source_variant_resource a_source_variant))
    × ((k : ResourceId)
        → find (set_schedule log_v1 (bytes "@daily") store).1 k
          ≡ (if log_v1 =? k then some after else find store k))
set_schedule_example =
    set_schedule-ok log_v1 (bytes "@daily") store (source_variant_resource a_source_variant)
      log_v1-stored tt
