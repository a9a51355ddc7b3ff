-- ===== src/Provider/Offline/Table/Latest.antt =====
-- provider/offline.go: `latestRecord`.
use featureform.Common.{
  ◌≤◌, ◌≡◌, refl, sym, ◌∙◌, subst, ◌⊎◌, inl, inr, List, [], ◌∷◌, ok, err, arith, In, Bool-cases,
  ltb, true, false, if◌then◌else◌,
}
use featureform.Text.{text_keys}
use featureform.Provider.Offline.Types.{ResourceRecord, panic}
use featureform.Provider.Offline.Table.{latest_loop, latest_record}

module _ {V : Type 0} where
  latest_loop-step :
      (latest r : ResourceRecord V) (rs : List (ResourceRecord V))
      → latest_loop latest (r ∷ rs) ≡ latest_loop (if ltb latest.ts r.ts then r else latest) rs
  unfolding latest_loop
  latest_loop-step latest r rs = refl

  latest_loop-nil : (latest : ResourceRecord V) → latest_loop latest [] ≡ latest
  unfolding latest_loop
  latest_loop-nil latest = refl

  unfoldable IsLatest : ResourceRecord V → List (ResourceRecord V) → ResourceRecord V → Type 0
  IsLatest latest recs r =
      ((r ≡ latest) ⊎ In r recs)
      × (latest.ts ≤ r.ts)
      × ((q : ResourceRecord V) → In q recs → q.ts ≤ r.ts)

  IsLatest-newer :
      (latest r m : ResourceRecord V) (rs : List (ResourceRecord V))
      → ltb latest.ts r.ts ≡ true
      → IsLatest r rs m
      → IsLatest latest (r ∷ rs) m
  unfolding IsLatest
  IsLatest-newer latest r m rs newer (from, le, all) =
      (ground (arith, from), ground (arith, le, newer), λ q i. ground (arith, i, all q, le))

  IsLatest-older :
      (latest r m : ResourceRecord V) (rs : List (ResourceRecord V))
      → ltb latest.ts r.ts ≡ false
      → IsLatest latest rs m
      → IsLatest latest (r ∷ rs) m
  unfolding IsLatest
  IsLatest-older latest r m rs older (from, le, all) =
      (ground (arith, from), le, λ q i. ground (arith, i, all q, le, older))

  latest_loop_lem :
      (latest : ResourceRecord V) (recs : List (ResourceRecord V))
      → IsLatest latest recs (latest_loop latest recs)
  unfolding IsLatest
  latest_loop_lem latest [] = rw (latest_loop-nil latest) (inl refl, omega arith, λ q i. absurd i)
  latest_loop_lem latest (r ∷ rs) = elim (Bool-cases (ltb latest.ts r.ts)) [
    | inl newer ↦ IsLatest-newer latest r _ rs newer (
        subst (IsLatest r rs) (sym (latest_loop-step latest r rs ∙ rw newer refl))
          (latest_loop_lem r rs))
    | inr older ↦ IsLatest-older latest r _ rs older (
        subst (IsLatest latest rs) (sym (latest_loop-step latest r rs ∙ rw older refl))
          (latest_loop_lem latest rs))
  ]

  -- Of an entity with records, `latestRecord` returns one of them, and none of them is after it. It
  -- panics for an entity without records.
  pub latest_record_lem :
      (recs : List (ResourceRecord V))
      → (latest_record recs ≡ err panic × (recs ≡ []))
        ⊎ ((r : ResourceRecord V) × (latest_record recs ≡ ok r)
            × In r recs
            × ((q : ResourceRecord V) → In q recs → q.ts ≤ r.ts))
  unfolding latest_record IsLatest
  latest_record_lem [] = inl (refl, refl)
  latest_record_lem (r ∷ rs) =
      let (from, le, all) = latest_loop_lem r (r ∷ rs) in
      inr (latest_loop r (r ∷ rs), refl, elim from [ inl e ↦ inl (sym e) | inr i ↦ i ], all)
