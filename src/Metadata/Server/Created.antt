-- ===== src/Metadata/Server/Created.antt =====
-- `genericCreate` as a whole, over a reliable lookup.
use featureform.Common.{
  ◌≡◌, ◌≢◌, sym, subst, ◌∙◌, ◌⊎◌, inl, inr, ◌↔◌, Option, none, some, List, [], ◌∷◌, ok, Bool-cases,
  All, In, find,
}
use featureform.Metadata.Types.{ResourceId, id_keys, id_eq, id_eq_iff, parent}
use featureform.Metadata.Resource.{Resource, resource_id, dependency_ids}
use featureform.Metadata.Lookup.{ResourceLookup, IsReliable}
use featureform.Metadata.Server.{InitParentFn, generic_create}
use featureform.Metadata.Server.Graph.{Snapshot, IsWellKeyed, IsIntact, IsBacked}
use featureform.Metadata.Server.Propagation.{told-some, told_eq_none}
use featureform.Metadata.Server.Propagated.{IsTold, propagate_change_lem}
use featureform.Metadata.Server.Create.{
  IsRegistered, CanCreate, registered_state, generic_create-registered, IsRegistered-state,
}

-- What stands in `g` stands in `g'` too.
abbrev pub Grows : Snapshot → Snapshot → Type 0
Grows g g' = (k : ResourceId) → g k ≢ none → g' k ≢ none

IsBacked-Grows : (g g' : Snapshot) (r : Resource) → Grows g g' → IsBacked g r → IsBacked g' r
IsBacked-Grows g g' r grows (ids, e, present) = (ids, e, still ids present)
  where
    still : (ids : List ResourceId) → All (λ k. g k ≢ none) ids → All (λ k. g' k ≢ none) ids
    still [] h = tt
    still (k ∷ ks) h = (grows k h.0, still ks h.1)

module _ (g g' : Snapshot) (res : Resource) (init : Option InitParentFn)
    (can : CanCreate g res init) (reg : IsRegistered g res init g') where
  -- What stands under an id after the registration.
  data Entry (k : ResourceId) (r : Resource) : Type 0 where
    the_new : k ≡ resource_id res → r ≡ res → Entry k r
    the_old : g k ≡ some r → Entry k r
    the_parent : resource_id r ≡ k → dependency_ids r ≡ ok [] → Entry k r

  entry : (k : ResourceId) (r : Resource) → g' k ≡ some r → Entry k r
  entry k r h = elim (Bool-cases (id_eq k (resource_id res))) [
    | inl same ↦
        let there = (id_eq_iff k (resource_id res)).0 same in
        the_new there (cc (there, reg.stored, h))
    | inr other ↦ elim (reg.others k (λ e. cc ((id_eq_iff k (resource_id res)).1 e, other))) [
      | inl old ↦ the_old (sym old ∙ h)
      | inr (f, e, absent, given, made) ↦
          let (f', given', own_id, no_deps) = can.parents k e in
          let is_r : f (resource_id res).name (resource_id res).variant ≡ r = cc (made, h) in
          let same : f' ≡ f = cc (given, given') in
          the_parent (subst (λ x. resource_id x ≡ k) is_r (rw same at own_id))
            (subst (λ x. dependency_ids x ≡ ok []) is_r (rw same at no_deps))
    ]
  ]

  pub Grows-registered : Grows g g'
  Grows-registered k there gone = elim (Bool-cases (id_eq k (resource_id res))) [
    | inl same ↦ cc ((id_eq_iff k (resource_id res)).0 same, reg.stored, gone)
    | inr other ↦ elim (reg.others k (λ e. cc ((id_eq_iff k (resource_id res)).1 e, other))) [
      | inl old ↦ there (sym old ∙ gone)
      | inr (f, e, absent, given, made) ↦ cc (made, gone)
    ]
  ]

  registered_keyed : IsWellKeyed g → IsWellKeyed g'
  registered_keyed keyed k r h = elim (entry k r h) [
    | the_new e f ↦ rw f (sym e)
    | the_old old ↦ keyed k r old
    | the_parent own_id no_deps ↦ own_id
  ]

  new_IsBacked : IsBacked g' res
  new_IsBacked = (can.ids, can.ids_read, there can.ids can.ids_there)
    where
      there :
          (ids : List ResourceId)
          → All (λ k. (g k ≢ none) ⊎ (parent (resource_id res) ≡ some k)) ids
          → All (λ k. g' k ≢ none) ids
      there [] h = tt
      there (k ∷ ks) h = (
        elim h.0 [ inl old ↦ Grows-registered k old | inr e ↦ reg.parent_stored k e ],
        there ks h.1,
      )

  registered-IsIntact : IsIntact g → IsIntact g'
  registered-IsIntact intact k r h = elim (entry k r h) [
    | the_new e f ↦ rw f new_IsBacked
    | the_old old ↦ IsBacked-Grows g g' r Grows-registered (intact k r old)
    | the_parent own_id no_deps ↦ ([], no_deps, tt)
  ]

-- Telling keeps the keys and the references.
module _ (new_res : Resource) (g after : Snapshot) (t : IsTold new_res g after) where
  told_keyed : IsWellKeyed g → IsWellKeyed after
  told_keyed keyed k r h =
      let (d, e, same, _) = told-some new_res r (find t.visited k) (g k) (sym (t.each k) ∙ h) in
      same ∙ keyed k d e

  pub Grows-told : Grows g after
  Grows-told k there gone =
      there (told_eq_none new_res (find t.visited k) (g k) (sym (t.each k) ∙ gone))

  told-IsIntact : IsIntact g → IsIntact after
  told-IsIntact intact k r h =
      let (d, e, _, same) = told-some new_res r (find t.visited k) (g k) (sym (t.each k) ∙ h) in
      let (ids, named, present) = IsBacked-Grows g after d Grows-told (intact k d e) in
      (ids, same ∙ named, present)

module _ {S : Type 0} (L : ResourceLookup S) (view : S → Snapshot) (rel : IsReliable L view)
    (order : List Resource → List Resource)
    (order_iff : (r : Resource) (rs : List Resource) → In r (order rs) ↔ In r rs) where
  -- Over a reliable lookup that is well keyed and in which no reference dangles, whatever the order
  -- in which Go ranges over maps: `genericCreate` of a resource that is named safely, that is new,
  -- and whose dependencies stand in the store, up to its parent, which it can make, succeeds. The
  -- store then holds the new resource, and its parent if it was missing, and every resource that the
  -- new one depends on, directly or through others, has been told of it; the rest is as it was.
  pub generic_create_lem :
      (res : Resource) (init : Option InitParentFn) (s : S)
      → IsWellKeyed (view s)
      → IsIntact (view s)
      → CanCreate (view s) res init
      → ((generic_create L order res init s).0 ≡ ok tt)
        × (g : Snapshot) × IsRegistered (view s) res init g
        × IsTold res g (view (generic_create L order res init s).1)
  generic_create_lem res init s keyed intact can =
      let reg = IsRegistered-state L view rel res init s can.starts in
      let s' = registered_state L view rel res init s in
      let (returns, is_told) =
        propagate_change_lem L view rel order order_iff res s'
          (registered_keyed (view s) (view s') res init can reg keyed)
          (registered-IsIntact (view s) (view s') res init can reg intact)
          (new_IsBacked (view s) (view s') res init can reg) in
      rw (generic_create-registered L view rel order res init s can.starts)
        (returns, view s', reg, is_told)

  -- Over a reliable lookup that is well keyed and in which no reference dangles, `genericCreate` of a
  -- resource that is named safely, that is new, and whose dependencies stand in the store, up to its
  -- parent, which it can make, keeps every resource under its own id and leaves no reference
  -- dangling.
  pub generic_create-IsIntact :
      (res : Resource) (init : Option InitParentFn) (s : S)
      → IsWellKeyed (view s)
      → IsIntact (view s)
      → CanCreate (view s) res init
      → IsWellKeyed (view (generic_create L order res init s).1)
        × IsIntact (view (generic_create L order res init s).1)
  generic_create-IsIntact res init s keyed intact can =
      let (_, g, reg, t) = generic_create_lem res init s keyed intact can in
      let after = view (generic_create L order res init s).1 in
      (
        told_keyed res g after t (registered_keyed (view s) g res init can reg keyed),
        told-IsIntact res g after t (registered-IsIntact (view s) g res init can reg intact),
      )
