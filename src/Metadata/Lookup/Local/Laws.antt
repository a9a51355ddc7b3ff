-- ===== src/Metadata/Lookup/Local/Laws.antt =====
-- The in-memory lookup is reliable: it behaves as the map that it is.
use featureform.Common.{
  ◌≡◌, ◌≢◌, refl, none, some, List, [], ◌∷◌, Result, ok, err, Map, find, put, find-put, In-put, In,
  All, ◌⊎◌, inl, inr, arith, Option-cases,
}
use featureform.Metadata.Types.{ResourceId, Error, not_found, id_keys, id_eq_iff}
use featureform.Metadata.Resource.{Resource}
use featureform.Metadata.Lookup.{IsReliable}
use featureform.Metadata.Lookup.Local.{
  LocalResourceLookup, local_lookup, has, set, submap_loop, submap, set_job,
}

ok_injective : {A : Type 0} {a b : A} → ◌≡◌ {A = Result Error A} (ok a) (ok b) → a ≡ b
ok_injective h = cc

module _ (s : LocalResourceLookup) where
  submap_loop_ok :
      (acc : Map ResourceId Resource) (ids : List ResourceId)
      → All (λ k. find s k ≢ none) ids
      → (m : Map ResourceId Resource) × (submap_loop s acc ids ≡ ok m)
  unfolding submap_loop
  submap_loop_ok acc [] h = (acc, refl)
  submap_loop_ok acc (id ∷ ids) h = elim (Option-cases (find s id)) [
    | inl e ↦ absurd (h.0 e)
    | inr (r, e) ↦ rw (e, submap_loop) (submap_loop_ok (put acc id r) ids h.1)
  ]

  submap_loop_missing :
      (acc : Map ResourceId Resource) (ids : List ResourceId) (k : ResourceId)
      → In k ids
      → find s k ≡ none
      → (j : ResourceId) × (submap_loop s acc ids ≡ err (not_found j)) × (find s j ≡ none)
  unfolding submap_loop
  submap_loop_missing acc [] k i h = absurd i
  submap_loop_missing acc (id ∷ ids) k i h = elim (Option-cases (find s id)) [
    | inl e ↦ (id, rw (e, submap_loop), e)
    | inr (r, e) ↦ elim i [
      | inl same ↦ cc
      | inr later ↦ rw (e, submap_loop) (submap_loop_missing (put acc id r) ids k later h)
    ]
  ]

  submap_loop_sound :
      (acc : Map ResourceId Resource) (ids : List ResourceId) (m : Map ResourceId Resource)
      → submap_loop s acc ids ≡ ok m
      → (k : ResourceId) (r : Resource) → In (k, r) m
      → In (k, r) acc ⊎ In k ids × (find s k ≡ some r)
  unfolding submap_loop
  submap_loop_sound acc [] m h k r i = inl (rw (ok_injective h) i)
  submap_loop_sound acc (id ∷ ids) m h k r i = elim (Option-cases (find s id)) [
    | inl e ↦ ground (arith, e)
    | inr (v, e) ↦ elim (submap_loop_sound (put acc id v) ids m (ground (arith, e)) k r i) [
      | inl old ↦ elim (In-put acc id v k r old) [
        | inl (same, value) ↦ inr (inl same, cc (same, value, e))
        | inr older ↦ inl older
      ]
      | inr (later, found) ↦ inr (inr later, found)
    ]
  ]

  submap_loop_keeps :
      (acc : Map ResourceId Resource) (ids : List ResourceId) (m : Map ResourceId Resource)
      → submap_loop s acc ids ≡ ok m
      → (k : ResourceId) (r : Resource) → find s k ≡ some r
      → find acc k ≡ some r
      → find m k ≡ some r
  unfolding submap_loop
  submap_loop_keeps acc [] m h k r f a = rw (← ok_injective h) a
  submap_loop_keeps acc (id ∷ ids) m h k r f a = elim (Option-cases (find s id)) [
    | inl e ↦ ground (arith, e)
    | inr (v, e) ↦
        submap_loop_keeps (put acc id v) ids m (ground (arith, e)) k r f
          (ground (arith, find-put acc id v k, id_eq_iff id k, e))
  ]

  submap_loop_adds :
      (acc : Map ResourceId Resource) (ids : List ResourceId) (m : Map ResourceId Resource)
      → submap_loop s acc ids ≡ ok m
      → (k : ResourceId) → In k ids
      → (r : Resource) × (find s k ≡ some r) × (find m k ≡ some r)
  unfolding submap_loop
  submap_loop_adds acc [] m h k i = absurd i
  submap_loop_adds acc (id ∷ ids) m h k i = elim (Option-cases (find s id)) [
    | inl e ↦ ground (arith, e)
    | inr (v, e) ↦ elim i [
      | inl same ↦ (
        v,
        rw same at e,
        submap_loop_keeps (put acc id v) ids m (ground (arith, e)) k v (rw same at e)
            (ground (arith, find-put acc id v k, id_eq_iff id k, same)),
      )
      | inr later ↦ submap_loop_adds (put acc id v) ids m (ground (arith, e)) k later
    ]
  ]

-- The in-memory lookup never fails but for ids that it lacks, and is a map: `Has` tells what stands
-- in it, `Set` writes one id, `SetJob` changes nothing, and `Submap` answers the resources of the
-- given ids and no others, or NotFound for one that is missing.
pub local_lookup-IsReliable : IsReliable local_lookup find
unfolding has set set_job submap
local_lookup-IsReliable = record {
  has_lem = λ id s. refl;
  set_ok = λ id r s. refl;
  view-set = λ id r s k. find-put s id r k;
  set_job_ok = λ id t s. refl;
  view-set_job = λ id t s k. refl;
  submap_ok = λ ids s h. submap_loop_ok s [] ids h;
  submap_missing = λ ids s k i h. submap_loop_missing s [] ids k i h;
  submap_sound = λ ids s m h k r i. elim (submap_loop_sound s [] ids m h k r i) [
    | inl none_yet ↦ absurd none_yet
    | inr found ↦ found
  ];
  submap_complete = λ ids s m h k i. let (r, f, g) = submap_loop_adds s [] ids m h k i in (r, g);
}
