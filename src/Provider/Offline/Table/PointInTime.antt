-- ===== src/Provider/Offline/Table/PointInTime.antt =====
-- provider/offline.go: the value of an entity at a time, which training sets are joined by.
use featureform.Common.{
  Option-cases, ℕ, ◌≤◌, ◌<◌, ◌≡◌, ◌≢◌, refl, ◌↔◌, ◌⊎◌, inl, inr, Option, none, some, List, [], ◌∷◌,
  ok, arith, In, Bool-cases, ltb, find, find-put,
}
use featureform.Text.{Text, text_keys, text_eq_refl, text_eq_iff}
use featureform.Provider.Offline.Types.{ResourceRecord}
use featureform.Provider.Offline.Table.{
  Table, insert_by_time, sort_by_time, value_of, last_value_loop, get_last_value_before,
}

module _ {V : Type 0} where
  IsSorted : List (ResourceRecord V) → Type 0
  IsSorted [] = Unit
  IsSorted (r ∷ rs) = ((q : ResourceRecord V) → In q rs → r.ts ≤ q.ts) × IsSorted rs

  -- Every record is after the time, or one that is not is a latest such and holds the value.
  unfoldable pub FoundFrom : Option V → List (ResourceRecord V) → ℕ → Option V → Type 0
  FoundFrom otherwise recs ts v =
      (((q : ResourceRecord V) → In q recs → ts < q.ts) × (v ≡ otherwise))
      ⊎ ((r : ResourceRecord V) × In r recs
          × (r.ts ≤ ts)
          × ((q : ResourceRecord V) → In q recs → q.ts ≤ ts → q.ts ≤ r.ts)
          × (v ≡ r.value))

  -- The value among the records at a time: that of a latest record that is not after it, or nil.
  abbrev pub IsAsOf : List (ResourceRecord V) → ℕ → Option V → Type 0
  IsAsOf = FoundFrom none

  In-insert :
      (q r : ResourceRecord V) (rs : List (ResourceRecord V))
      → In q (insert_by_time r rs) ↔ In q (r ∷ rs)
  unfolding insert_by_time
  In-insert q r [] = (λ i. i, λ i. i)
  In-insert q r (p ∷ ps) = ground (arith, In-insert q r ps)

  pub In-sort :
      (q : ResourceRecord V) (rs : List (ResourceRecord V)) → In q (sort_by_time rs) ↔ In q rs
  unfolding sort_by_time
  In-sort q [] = (λ i. i, λ i. i)
  In-sort q (r ∷ rs) = ground (arith, In-insert q r (sort_by_time rs), In-sort q rs)

  insert-IsSorted :
      (r : ResourceRecord V) (rs : List (ResourceRecord V))
      → IsSorted rs
      → IsSorted (insert_by_time r rs)
  unfolding insert_by_time IsSorted
  insert-IsSorted r [] h = (λ q i. absurd i, tt)
  insert-IsSorted r (p ∷ ps) h = elim (Bool-cases (ltb p.ts r.ts)) [
    | inl earlier ↦
        rw earlier (
          (λ q i. ground (arith, (In-insert q r ps).0 i, h.0 q, earlier)),
          insert-IsSorted r ps h.1,
        )
    | inr later ↦ rw later ((λ q i. ground (arith, h.0 q, i, later)), h)
  ]

  sort-IsSorted : (rs : List (ResourceRecord V)) → IsSorted (sort_by_time rs)
  unfolding sort_by_time IsSorted
  sort-IsSorted [] = tt
  sort-IsSorted (r ∷ rs) = insert-IsSorted r (sort_by_time rs) (sort-IsSorted rs)

  last_value_loop_lem :
      (ts : ℕ) (before : Option (ResourceRecord V)) (r : ResourceRecord V)
      (rs : List (ResourceRecord V))
      → IsSorted (r ∷ rs)
      → (v : Option V) × (last_value_loop ts before (r ∷ rs) ≡ ok v)
        × FoundFrom (value_of before) (r ∷ rs) ts v
  unfolding last_value_loop FoundFrom value_of IsSorted
  last_value_loop_lem ts before r [] h = elim (Bool-cases (ltb ts r.ts)) [
    | inl after ↦ (value_of before, rw after refl, inl ((λ q i. ground (arith, after, i)), refl))
    | inr reached ↦ (
      r.value,
      rw reached refl,
      inr (r, inl refl, ground (arith, reached), (λ q i le. ground (arith, i)), refl),
    )
  ]
  last_value_loop_lem ts before r (p ∷ ps) h = elim (Bool-cases (ltb ts r.ts)) [
    | inl after ↦
        (value_of before, rw after refl, inl ((λ q i. ground (arith, after, i, h.0 q)), refl))
    | inr reached ↦
        let (v, e, found) = last_value_loop_lem ts (some r) p ps h.1 in
        elim found [
          | inl (all_after, same) ↦ (
            v,
            rw reached e,
            inr (
              r,
              inl refl,
              ground (arith, reached),
              (λ q i le. ground (arith, i, all_after q)),
              same,
            ),
          )
          | inr (m, i, le, greatest, same) ↦ (
            v,
            rw reached e,
            inr (m, inr i, le, (λ q j le'. ground (arith, j, greatest q, h.0 m i)), same),
          )
        ]
  ]

  -- Only the records count, not their order.
  pub In-FoundFrom :
      (otherwise : Option V) (recs recs' : List (ResourceRecord V)) (ts : ℕ) (v : Option V)
      → ((q : ResourceRecord V) → In q recs ↔ In q recs')
      → FoundFrom otherwise recs ts v
      → FoundFrom otherwise recs' ts v
  unfolding FoundFrom
  In-FoundFrom otherwise recs recs' ts v same (inl (after, e)) =
      inl ((λ q i. after q ((same q).1 i)), e)
  In-FoundFrom otherwise recs recs' ts v same (inr (r, i, le, greatest, e)) =
      inr (r, (same r).0 i, le, (λ q j. greatest q ((same q).1 j)), e)

  sorted-AsOf :
      (recs : List (ResourceRecord V)) (ts : ℕ)
      → recs ≢ []
      → (v : Option V) × (last_value_loop ts none (sort_by_time recs) ≡ ok v) × IsAsOf recs ts v
  unfolding value_of
  sorted-AsOf recs ts there = elim (List-cases (sort_by_time recs)) [
    | inl empty ↦ absurd (there (sort-nil recs empty))
    | inr (r, rs, e) ↦
        let (v, found, as_of) = last_value_loop_lem ts none r rs (rw e at (sort-IsSorted recs)) in
        (
          v,
          rw e found,
          In-FoundFrom none (sort_by_time recs) recs ts v (λ q. In-sort q recs) (rw e as_of),
        )
  ]
    where
      List-cases :
          (xs : List (ResourceRecord V))
          → (xs ≡ []) ⊎ ((x : ResourceRecord V) × (ys : List (ResourceRecord V)) × (xs ≡ x ∷ ys))
      List-cases [] = inl refl
      List-cases (x ∷ ys) = inr (x, ys, refl)

      sort-nil : (xs : List (ResourceRecord V)) → sort_by_time xs ≡ [] → xs ≡ []
      sort-nil [] e = refl
      sort-nil (x ∷ xs) e = absurd (rw e at ((In-sort x (x ∷ xs)).1 (inl refl)))

  pub get_last_value_before_lem :
      (entity : Text) (ts : ℕ) (t : Table V)
      → (find t entity ≡ none → get_last_value_before entity ts t ≡ (ok none, t))
        × ((recs : List (ResourceRecord V))
            → find t entity ≡ some recs
            → recs ≢ []
            → let after = (get_last_value_before entity ts t).1 in
              (v : Option V) × ((get_last_value_before entity ts t).0 ≡ ok v)
              × IsAsOf recs ts v
              × ((sorted : List (ResourceRecord V)) × (find after entity ≡ some sorted)
                  × ((q : ResourceRecord V) → In q sorted ↔ In q recs))
              × ((other : Text) → other ≢ entity → find after other ≡ find t other))
  unfolding get_last_value_before
  get_last_value_before_lem entity ts t = (
    λ absent. rw (absent, get_last_value_before) refl,
    λ recs stored there.
        let (v, found, as_of) = sorted-AsOf recs ts there in
        rw (stored, get_last_value_before)
          (
            v,
            found,
            as_of,
            (
              sort_by_time recs,
              ground (arith, find-put t entity (sort_by_time recs) entity, text_eq_refl entity),
              λ q. In-sort q recs,
            ),
            λ other differ.
                ground
                  (arith, find-put t entity (sort_by_time recs) other, text_eq_iff entity other),
          ),
  )

  -- Where an entity that has an entry has records, `getLastValueBefore` does not panic. For an entity
  -- without an entry it returns nil and changes nothing. For any other it returns the value that the
  -- records have at the time, that of a latest record that is not after it or nil if there is none,
  -- and leaves the same records for the entity, in another order, and those of the others alone.
  pub get_last_value_before-IsAsOf :
      (entity : Text) (ts : ℕ) (t : Table V)
      → ((recs : List (ResourceRecord V)) → find t entity ≡ some recs → recs ≢ [])
      → let after = (get_last_value_before entity ts t).1 in
        ((find t entity ≡ none) × (get_last_value_before entity ts t ≡ (ok none, t)))
        ⊎ ((recs : List (ResourceRecord V)) × (v : Option V) × (find t entity ≡ some recs)
            × ((get_last_value_before entity ts t).0 ≡ ok v)
            × IsAsOf recs ts v
            × ((sorted : List (ResourceRecord V)) × (find after entity ≡ some sorted)
                × ((q : ResourceRecord V) → In q sorted ↔ In q recs))
            × ((other : Text) → other ≢ entity → find after other ≡ find t other))
  get_last_value_before-IsAsOf entity ts t there =
      let (absent_lem, stored_lem) = get_last_value_before_lem entity ts t in
      elim (Option-cases (find t entity)) [
        | inl absent ↦ inl (absent, absent_lem absent)
        | inr (recs, e) ↦
            let (v, found, as_of, kept, others) = stored_lem recs e (there recs e) in
            inr (recs, v, e, found, as_of, kept, others)
      ]
