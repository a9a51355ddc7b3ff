-- ===== src/Provider/Offline/Store/Resorted.antt =====
-- provider/offline.go: tables whose records of each entity stand in another order.
use featureform.Common.{
  ℕ, ◌≡◌, ◌≢◌, refl, sym, ◌∙◌, ◌↔◌, ◌⊎◌, inl, inr, Option, none, some, List, [], ◌∷◌, ok, arith, In,
  Bool-cases, find, Option-cases, All, All-In, find-In,
}
use featureform.Text.{Text, text_keys, text_eq, text_eq_iff}
use featureform.Provider.Offline.Types.{ResourceRecord, id_keys}
use featureform.Provider.Offline.Table.{Table, get_last_value_before}
use featureform.Provider.Offline.Table.PointInTime.{IsAsOf, In-FoundFrom, get_last_value_before_lem}

pub some_injective : {A : Type 0} {a b : A} → some a ≡ some b → a ≡ b
some_injective e = cc

module _ {V : Type 0} where
  -- No entity of the table is left without records.
  pub HasRecords : Table V → Type 0
  HasRecords t =
      (entity : Text) (recs : List (ResourceRecord V)) → find t entity ≡ some recs → recs ≢ []

  pub HasRecords-entries : (t : Table V) → All (λ e. e.1 ≢ []) t → HasRecords t
  unfolding HasRecords
  HasRecords-entries t all entity recs h =
      All-In (λ e. e.1 ≢ []) t (entity, recs) all (find-In t entity recs h)

  -- The value of an entity at a time: nil if the table does not know the entity.
  pub AsOf : Table V → Text → ℕ → Option V → Type 0
  AsOf t entity ts v =
      (find t entity ≡ none → v ≡ none)
      × ((recs : List (ResourceRecord V)) → find t entity ≡ some recs → IsAsOf recs ts v)

  -- The same records under each entity, in another order.
  pub Resorted : Table V → Table V → Type 0
  Resorted t t' =
      (entity : Text)
      → ((find t entity ≡ none) × (find t' entity ≡ none))
        ⊎ ((recs : List (ResourceRecord V)) × (recs' : List (ResourceRecord V)) × (find t entity
              ≡ some recs)
            × (find t' entity ≡ some recs')
            × ((q : ResourceRecord V) → In q recs' ↔ In q recs))

  pub Resorted-refl : (t : Table V) → Resorted t t
  unfolding Resorted
  Resorted-refl t entity = elim (Option-cases (find t entity)) [
    | inl absent ↦ inl (absent, absent)
    | inr (recs, e) ↦ inr (recs, recs, e, e, λ q. (λ i. i, λ i. i))
  ]

  pub Resorted-trans : (t u w : Table V) → Resorted t u → Resorted u w → Resorted t w
  unfolding Resorted
  Resorted-trans t u w a b entity = elim (a entity) [
    | inl (x, y) ↦ elim (b entity) [
      | inl (z, absent) ↦ inl (x, absent)
      | inr (recs, recs', e, f, same) ↦ absurd (ground (arith, y, e))
    ]
    | inr (recs, recs', e, f, same) ↦ elim (b entity) [
      | inl (z, absent) ↦ absurd (ground (arith, z, f))
      | inr (ss, ss', g, h, same') ↦
          let m : ss ≡ recs' = some_injective (sym g ∙ f) in
          inr (
            recs,
            ss',
            e,
            h,
            λ q. (
              λ i. (same q).0 (rw (sym m) ((same' q).0 i)),
              λ i. (same' q).1 (rw m ((same q).1 i)),
            ),
          )
    ]
  ]

  pub HasRecords-Resorted : (t u : Table V) → HasRecords t → Resorted t u → HasRecords u
  unfolding HasRecords Resorted
  HasRecords-Resorted t u h a entity recs f empty = elim (a entity) [
    | inl (x, y) ↦ ground (arith, y, f)
    | inr (ss, ss', e, g, same) ↦
        h entity ss e (nil-In ss (λ q i. rw (some_injective (sym g ∙ f) ∙ empty) at ((same q).1 i)))
  ]
    where
      nil-In : (xs : List (ResourceRecord V)) → ((q : ResourceRecord V) → In q xs → ⊥) → xs ≡ []
      nil-In [] empty = refl
      nil-In (x ∷ xs) empty = absurd (empty x (inl refl))

  pub AsOf-Resorted :
      (t u : Table V) (entity : Text) (ts : ℕ) (v : Option V)
      → Resorted t u
      → AsOf u entity ts v
      → AsOf t entity ts v
  unfolding AsOf Resorted
  AsOf-Resorted t u entity ts v a (gone, there) = elim (a entity) [
    | inl (x, y) ↦ (λ _. gone y, λ recs f. absurd (ground (arith, x, f)))
    | inr (ss, ss', e, g, same) ↦ (
      λ absent. absurd (ground (arith, absent, e)),
      λ recs f.
          In-FoundFrom none ss' recs ts v (λ q. rw (some_injective (sym f ∙ e)) (same q))
            (there ss' g),
    )
  ]

  pub get_last_value_before-AsOf :
      (t : Table V) (entity : Text) (ts : ℕ)
      → HasRecords t
      → (v : Option V) × ((get_last_value_before entity ts t).0 ≡ ok v)
        × AsOf t entity ts v
        × Resorted t (get_last_value_before entity ts t).1
  unfolding AsOf HasRecords Resorted
  get_last_value_before-AsOf t entity ts h =
      let (absent_lem, stored_lem) = get_last_value_before_lem entity ts t in
      elim (Option-cases (find t entity)) [
        | inl absent ↦ (
          none,
          rw (absent_lem absent) refl,
          (λ _. refl, λ recs f. absurd (ground (arith, absent, f))),
          rw (absent_lem absent) (Resorted-refl t),
        )
        | inr (recs, e) ↦
            let (v, found, as_of, (sorted, f, same), others) =
              stored_lem recs e (h entity recs e) in
            (
              v,
              found,
              (
                λ absent. absurd (ground (arith, absent, e)),
                λ recs' e'. rw (some_injective (sym e' ∙ e)) as_of,
              ),
              λ other. elim (Bool-cases (text_eq other entity)) [
                | inl here ↦
                    let m = (text_eq_iff other entity).0 here in
                    inr (recs, sorted, rw m e, rw m f, same)
                | inr elsewhere ↦
                    let differ : other ≢ entity =
                      λ m. ground (arith, (text_eq_iff other entity).1 m, elsewhere) in
                    elim (Resorted-refl t other) [
                      | inl (x, y) ↦ inl (x, others other differ ∙ x)
                      | inr (ss, ss', g, g', same') ↦
                          inr (ss, ss', g, others other differ ∙ g', same')
                    ]
              ],
            )
      ]
