-- ===== src/Provider/Offline/Store/Materializations.antt =====
-- provider/offline.go: what `CreateMaterialization` stores.
use featureform.Common.{
  Pointwise, suc, ◌≤◌, ◌≡◌, ◌≢◌, refl, ap, ◌∙◌, ◌↔◌, inl, inr, true, false, List, [], ◌∷◌, ok,
  arith, In, Bool-cases, Result-cases, ◌>>=◌, find, put, find-put, All, length, some,
}
use featureform.Text.{Text, text_keys, text_eq_refl}
use featureform.Provider.Offline.Types.{
  Error, ResourceId, ResourceRecord, id_keys, feature, type_eq,
}
use featureform.Provider.Offline.Table.{Table}
use featureform.Provider.Offline.Table.Latest.{latest_record_lem}
use featureform.Provider.Offline.Store.{
  MemoryOfflineStore, text_lt, get_resource_table, latest_records, insert_by_entity, sort_by_entity,
  create_materialization, get_materialization,
}

text_lt_asym : (s t : Text) → text_lt s t ≡ true → text_lt t s ≡ false
unfolding text_lt
text_lt_asym s [] h = absurd (ground (arith, h))
text_lt_asym [] (d ∷ t) h = refl
text_lt_asym (c ∷ s) (d ∷ t) h = ground (arith, text_lt_asym s t)

text_lt_trans_false :
    (s t u : Text) → text_lt t s ≡ false → text_lt u t ≡ false → text_lt u s ≡ false
unfolding text_lt
text_lt_trans_false [] t u h k = refl
text_lt_trans_false (c ∷ s) [] u h k = absurd (ground (arith, h))
text_lt_trans_false (c ∷ s) (d ∷ t) [] h k = absurd (ground (arith, k))
text_lt_trans_false (c ∷ s) (d ∷ t) (e ∷ u) h k = ground (arith, text_lt_trans_false s t u)

length-Pointwise :
    {A B : Type 0} (R : A → B → Type 0) (xs : List A) (ys : List B)
    → Pointwise R xs ys
    → length ys ≡ length xs
length-Pointwise R [] [] h = refl
length-Pointwise R [] (y ∷ ys) h = absurd h
length-Pointwise R (x ∷ xs) [] h = absurd h
length-Pointwise R (x ∷ xs) (y ∷ ys) h = ap suc (length-Pointwise R xs ys h.1)

module _ {V : Type 0} where
  -- No record stands before one of a smaller entity.
  pub IsOrdered : List (ResourceRecord V) → Type 0
  IsOrdered [] = Unit
  IsOrdered (r ∷ rs) =
      ((q : ResourceRecord V) → In q rs → text_lt q.entity r.entity ≡ false) × IsOrdered rs

  -- The record is one of the list, and none of them is after it.
  unfoldable pub IsLatestOf : List (ResourceRecord V) → ResourceRecord V → Type 0
  IsLatestOf recs r = In r recs × ((q : ResourceRecord V) → In q recs → q.ts ≤ r.ts)

  In-insert :
      (q r : ResourceRecord V) (rs : List (ResourceRecord V))
      → In q (insert_by_entity r rs) ↔ In q (r ∷ rs)
  unfolding insert_by_entity
  In-insert q r [] = (λ i. i, λ i. i)
  In-insert q r (p ∷ ps) = ground (arith, In-insert q r ps)

  In-sort :
      (q : ResourceRecord V) (rs : List (ResourceRecord V)) → In q (sort_by_entity rs) ↔ In q rs
  unfolding sort_by_entity
  In-sort q [] = (λ i. i, λ i. i)
  In-sort q (r ∷ rs) = ground (arith, In-insert q r (sort_by_entity rs), In-sort q rs)

  length-insert :
      (r : ResourceRecord V) (rs : List (ResourceRecord V))
      → length (insert_by_entity r rs) ≡ suc (length rs)
  unfolding insert_by_entity
  length-insert r [] = refl
  length-insert r (p ∷ ps) = ground (arith, length-insert r ps)

  length-sort : (rs : List (ResourceRecord V)) → length (sort_by_entity rs) ≡ length rs
  unfolding sort_by_entity
  length-sort [] = refl
  length-sort (r ∷ rs) = length-insert r (sort_by_entity rs) ∙ ap suc (length-sort rs)

  insert-IsOrdered :
      (r : ResourceRecord V) (rs : List (ResourceRecord V))
      → IsOrdered rs
      → IsOrdered (insert_by_entity r rs)
  unfolding insert_by_entity IsOrdered
  insert-IsOrdered r [] h = (λ q i. absurd i, tt)
  insert-IsOrdered r (p ∷ ps) h = elim (Bool-cases (text_lt p.entity r.entity)) [
    | inl smaller ↦ rw smaller (
      (λ q i.
          ground (arith, (In-insert q r ps).0 i, h.0 q, text_lt_asym p.entity r.entity smaller)),
      insert-IsOrdered r ps h.1,
    )
    | inr larger ↦ rw larger (
      (λ q i.
          ground (arith, i, larger, h.0 q, text_lt_trans_false r.entity p.entity q.entity larger)),
      h,
    )
  ]

  sort-IsOrdered : (rs : List (ResourceRecord V)) → IsOrdered (sort_by_entity rs)
  unfolding sort_by_entity IsOrdered
  sort-IsOrdered [] = tt
  sort-IsOrdered (r ∷ rs) = insert-IsOrdered r (sort_by_entity rs) (sort-IsOrdered rs)

  latest_records_lem :
      (t : Table V)
      → All (λ e. e.1 ≢ []) t
      → (rs : List (ResourceRecord V)) × (latest_records t ≡ ok rs)
        × Pointwise (λ e r. IsLatestOf e.1 r) t rs
  unfolding latest_records IsLatestOf
  latest_records_lem [] h = ([], refl, tt)
  latest_records_lem ((entity, recs) ∷ t) (there, h) = elim (latest_record_lem recs) [
    | inl (panics, empty) ↦ absurd (there empty)
    | inr (r, e, i, newest) ↦
        let (rs, f, all) = latest_records_lem t h in (r ∷ rs, rw e (rw f refl), ((i, newest), all))
  ]

  create_materialization-found :
      (uuid : Text) (id : ResourceId) (s : MemoryOfflineStore V) (t : Table V)
      (rs : List (ResourceRecord V))
      → type_eq id.type feature ≡ true
      → find s.tables id ≡ some t
      → latest_records t ≡ ok rs
      → create_materialization uuid id s ≡ (
        ok (sort_by_entity rs),
        record s { materializations = put s.materializations uuid (sort_by_entity rs) },
      )
  unfolding create_materialization get_resource_table
  create_materialization-found uuid id s t rs k e f =
      rw (k, create_materialization) (rw (e, get_resource_table) (rw f refl))

  get_materialization-found :
      (uuid : Text) (recs : List (ResourceRecord V)) (s : MemoryOfflineStore V)
      → find s.materializations uuid ≡ some recs
      → get_materialization uuid s ≡ ok recs
  unfolding get_materialization
  get_materialization-found uuid recs s f = rw (f, get_materialization) refl

  pub create_materialization-get :
      (uuid : Text) (id : ResourceId) (s : MemoryOfflineStore V) (rows : List (ResourceRecord V))
      → (create_materialization uuid id s).0 ≡ ok rows
      → get_materialization uuid (create_materialization uuid id s).1 ≡ ok rows
  unfolding create_materialization
  create_materialization-get uuid id s rows made = elim (Bool-cases (type_eq id.type feature)) [
    | inl same ↦
        elim (Result-cases {E = Error} (do t ← get_resource_table id s; latest_records t)) [
          | inl (recs, e) ↦
              rw (same, e)
                (get_materialization-found uuid rows _ (
                  find-put s.materializations uuid (sort_by_entity recs) uuid
                  ∙ ground (arith, text_eq_refl uuid, rw (same, e) at made)))
          | inr (error, e) ↦ absurd (ground (arith, rw (same, e) at made))
        ]
    | inr other ↦ absurd (ground (arith, rw other at made))
  ]

  -- For a feature whose table has records for each entity, `CreateMaterialization` succeeds, and
  -- `GetMaterialization` then finds under the new identifier what it returned: for each entity of the
  -- table one latest record of it, and nothing else, in the order of the entities. The tables stay
  -- as they were.
  pub get_materialization-create_materialization :
      (uuid : Text) (id : ResourceId) (s : MemoryOfflineStore V) (t : Table V)
      → id.type ≡ feature
      → find s.tables id ≡ some t
      → All (λ e. e.1 ≢ []) t
      → let after = (create_materialization uuid id s).1 in
        (recs : List (ResourceRecord V)) × (rs : List (ResourceRecord V)) × ((create_materialization
            uuid id s).0
          ≡ ok recs)
        × (get_materialization uuid after ≡ ok recs)
        × IsOrdered recs
        × Pointwise (λ e r. IsLatestOf e.1 r) t rs
        × ((q : ResourceRecord V) → In q recs ↔ In q rs)
        × (length recs ≡ length t)
        × (after.tables ≡ s.tables)
  get_materialization-create_materialization uuid id s t k e there =
      let (rs, f, latest) = latest_records_lem t there in
      rw (create_materialization-found uuid id s t rs (ap (λ x. type_eq x feature) k) e f) (
        sort_by_entity rs,
        rs,
        refl,
        get_materialization-found uuid (sort_by_entity rs) _ (
            find-put s.materializations uuid (sort_by_entity rs) uuid
            ∙ rw (text_eq_refl uuid) refl),
        sort-IsOrdered rs,
        latest,
        (λ q. In-sort q rs),
        length-sort rs ∙ length-Pointwise (λ e r. IsLatestOf e.1 r) t rs latest,
        refl,
      )
