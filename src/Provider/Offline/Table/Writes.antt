-- ===== src/Provider/Offline/Table/Writes.antt =====
-- provider/offline.go: what `Write` leaves in a table.
use featureform.Common.{
  ◌≡◌, ◌≢◌, refl, sym, ap, ◌∙◌, subst, ◌↔◌, ◌⊎◌, inl, inr, Option, none, some, List, [], ◌∷◌, ok,
  err, arith, In, Bool-cases, ◌==◌, true, false, find, put, find-put, if◌then◌else◌,
}
use featureform.Text.{Text, text_keys, text_eq, text_eq_refl, text_eq_iff}
use featureform.Provider.Offline.Types.{
  ResourceRecord, missing_entity, check_timestamp, check_record,
}
use featureform.Provider.Offline.Table.{
  Table, new_table, write_loop, write_entity, write_checked, write,
}

module _ {V : Type 0} where
  -- No two records have the same time.
  pub HasDistinctTimes : List (ResourceRecord V) → Type 0
  HasDistinctTimes [] = Unit
  HasDistinctTimes (r ∷ rs) = ((q : ResourceRecord V) → In q rs → q.ts ≢ r.ts) × HasDistinctTimes rs

  -- Each entity of the table has records, all of it, with distinct times.
  pub IsValid : Table V → Type 0
  IsValid t =
      (entity : Text) (recs : List (ResourceRecord V))
      → find t entity ≡ some recs
      → (recs ≢ [])
        × HasDistinctTimes recs
        × ((q : ResourceRecord V) → In q recs → q.entity ≡ entity)

  write_loop-In :
      (rec : ResourceRecord V) (recs : List (ResourceRecord V))
      → HasDistinctTimes recs
      → (q : ResourceRecord V)
      → In q (write_loop rec recs) ↔ ((rec ≡ q) ⊎ (In q recs × (q.ts ≢ rec.ts)))
  unfolding write_loop HasDistinctTimes
  write_loop-In rec [] h q = ground arith
  write_loop-In rec (r ∷ rs) h q = elim (Bool-cases (r.ts == rec.ts)) [
    | inl same ↦ rw same (ground (arith, h.0 q, same))
    | inr other ↦ rw other (ground (arith, write_loop-In rec rs h.1 q, other))
  ]

  write_loop-HasDistinctTimes :
      (rec : ResourceRecord V) (recs : List (ResourceRecord V))
      → HasDistinctTimes recs
      → HasDistinctTimes (write_loop rec recs)
  unfolding write_loop HasDistinctTimes
  write_loop-HasDistinctTimes rec [] h = (λ q i. absurd i, tt)
  write_loop-HasDistinctTimes rec (r ∷ rs) h = elim (Bool-cases (r.ts == rec.ts)) [
    | inl same ↦ rw same ((λ q i. ground (arith, h.0 q i, same)), h.1)
    | inr other ↦ rw other (
      (λ q i. ground (arith, (write_loop-In rec rs h.1 q).0 i, h.0 q, other)),
      write_loop-HasDistinctTimes rec rs h.1,
    )
  ]

  write_loop-nonempty :
      (rec : ResourceRecord V) (recs : List (ResourceRecord V)) → write_loop rec recs ≢ []
  unfolding write_loop
  write_loop-nonempty rec [] e = ground arith
  write_loop-nonempty rec (r ∷ rs) e = ground arith

  -- A record stands in the table, under its entity.
  abbrev pub Holds : Table V → ResourceRecord V → Type 0
  Holds t q = (recs : List (ResourceRecord V)) × (find t q.entity ≡ some recs) × In q recs

  check_timestamp-entity : (rec : ResourceRecord V) → (check_timestamp rec).entity ≡ rec.entity
  unfolding check_timestamp
  check_timestamp-entity rec = elim (Bool-cases (rec.ts == 0)) [
    | inl zero_time ↦ rw zero_time refl
    | inr set_time ↦ rw set_time refl
  ]

  write-refused :
      (rec : ResourceRecord V) (t : Table V)
      → rec.entity ≡ []
      → write rec t ≡ (err missing_entity, t)
  unfolding write write_checked check_record text_eq
  write-refused rec t e = rw (check_timestamp-entity rec) (rw e refl)

  write-accepted :
      (rec : ResourceRecord V) (t : Table V)
      → rec.entity ≢ []
      → let rec' = check_timestamp rec in
        write rec t ≡ (ok tt, put t rec.entity (write_entity rec' (find t rec.entity)))
  unfolding write write_checked check_record
  write-accepted rec t e = elim (Bool-cases (text_eq rec.entity [])) [
    | inl empty ↦ absurd (e ((text_eq_iff rec.entity []).0 empty))
    | inr named ↦ rw (check_timestamp-entity rec) (rw named refl)
  ]

  write_entity-nonempty :
      (rec : ResourceRecord V) (o : Option (List (ResourceRecord V))) → write_entity rec o ≢ []
  unfolding write_entity
  write_entity-nonempty rec none e = ground arith
  write_entity-nonempty rec (some recs) e = write_loop-nonempty rec recs e

  write_entity-HasDistinctTimes :
      (rec : ResourceRecord V) (o : Option (List (ResourceRecord V)))
      → ((recs : List (ResourceRecord V)) → o ≡ some recs → HasDistinctTimes recs)
      → HasDistinctTimes (write_entity rec o)
  unfolding write_entity HasDistinctTimes
  write_entity-HasDistinctTimes rec none h = (λ q i. absurd i, tt)
  write_entity-HasDistinctTimes rec (some recs) h =
      write_loop-HasDistinctTimes rec recs (h recs refl)

  write_entity-In :
      (rec : ResourceRecord V) (o : Option (List (ResourceRecord V)))
      → ((recs : List (ResourceRecord V)) → o ≡ some recs → HasDistinctTimes recs)
      → (q : ResourceRecord V)
      → In q (write_entity rec o) ↔ (
          (rec ≡ q)
          ⊎ ((recs : List (ResourceRecord V)) × (o ≡ some recs) × In q recs) × (q.ts ≢ rec.ts))
  unfolding write_entity
  write_entity-In rec none h q = (
    λ i. elim i [ inl e ↦ inl e | inr i' ↦ absurd i' ],
    λ d. elim d [ inl e ↦ inl e | inr ((recs, e, i), n) ↦ absurd (ground (arith, e)) ],
  )
  write_entity-In rec (some recs) h q =
      let iff = write_loop-In rec recs (h recs refl) q in
      (
        λ i. elim (iff.0 i) [ inl e ↦ inl e | inr (j, n) ↦ inr ((recs, refl, j), n) ],
        λ d. elim d [
          | inl e ↦ iff.1 (inl e)
          | inr ((others, e, j), n) ↦ iff.1 (inr (rw (some_injective e) j, n))
        ],
      )
    where
      some_injective : {a b : List (ResourceRecord V)} → some a ≡ some b → a ≡ b
      some_injective e = cc

  put-found :
      (t : Table V) (entity : Text) (recs : List (ResourceRecord V)) (other : Text)
      → find (put t entity recs) other ≡ (if text_eq entity other then some recs else find t other)
  put-found t entity recs other = find-put t entity recs other

  put-IsValid :
      (t : Table V) (entity : Text) (recs : List (ResourceRecord V))
      → IsValid t
      → recs ≢ []
      → HasDistinctTimes recs
      → ((q : ResourceRecord V) → In q recs → q.entity ≡ entity)
      → IsValid (put t entity recs)
  unfolding IsValid
  put-IsValid t entity recs valid there distinct own other found h =
      elim (Bool-cases (text_eq entity other)) [
        | inl same ↦
            let e = (text_eq_iff entity other).0 same in
            let f : recs ≡ found = ground (arith, put-found t entity recs other, same, h) in
            rw (sym f, sym e) (there, distinct, own)
        | inr differ ↦ valid other found (ground (arith, put-found t entity recs other, differ, h))
      ]

  distinct_in :
      (t : Table V)
      → IsValid t
      → (entity : Text) (recs : List (ResourceRecord V)) → find t entity ≡ some recs
      → HasDistinctTimes recs
  unfolding IsValid
  distinct_in t valid entity recs e = (valid entity recs e).1

  put-Holds :
      (t : Table V) (rec q : ResourceRecord V)
      → IsValid t
      → Holds (put t rec.entity (write_entity rec (find t rec.entity))) q
        ↔ ((rec ≡ q) ⊎ Holds t q × (q.entity ≡ rec.entity → q.ts ≢ rec.ts))
  put-Holds t rec q valid = elim (Bool-cases (text_eq rec.entity q.entity)) [
    | inl same ↦
        let e = (text_eq_iff rec.entity q.entity).0 same in
        (
          λ (recs, f, i). elim (iff.0 (rw (written f same) i)) [
            | inl r ↦ inl r
            | inr ((rs, g, j), n) ↦ inr ((rs, rw (sym e) g, j), λ _. n)
          ],
          λ d. elim d [
            | inl r ↦ (write_entity rec (find t rec.entity), stands same, iff.1 (inl r))
            | inr ((rs, g, j), n) ↦ (
              write_entity rec (find t rec.entity),
              stands same,
              iff.1 (inr ((rs, rw e g, j), n (sym e))),
            )
          ],
        )
    | inr differ ↦ (
      λ (recs, f, i). inr (
        (recs, sym (other differ) ∙ f, i),
        λ e. absurd (ground (arith, e, differ, text_eq_refl rec.entity)),
      ),
      λ d. elim d [
        | inl r ↦ absurd (ground (arith, r, differ, text_eq_refl rec.entity))
        | inr ((rs, g, j), n) ↦ (rs, other differ ∙ g, j)
      ],
    )
  ]
    where
      iff : In q (write_entity rec (find t rec.entity)) ↔ (
          (rec ≡ q)
          ⊎ ((recs : List (ResourceRecord V)) × (find t rec.entity ≡ some recs) × In q recs)
            × (q.ts ≢ rec.ts))
      iff = write_entity-In rec (find t rec.entity) (distinct_in t valid rec.entity) q

      stands :
          text_eq rec.entity q.entity ≡ true
          → find (put t rec.entity (write_entity rec (find t rec.entity))) q.entity
            ≡ some (write_entity rec (find t rec.entity))
      stands same =
          put-found t rec.entity (write_entity rec (find t rec.entity)) q.entity ∙ rw same refl

      other :
          text_eq rec.entity q.entity ≡ false
          → find (put t rec.entity (write_entity rec (find t rec.entity))) q.entity
            ≡ find t q.entity
      other differ =
          put-found t rec.entity (write_entity rec (find t rec.entity)) q.entity ∙ rw differ refl

      written :
          {recs : List (ResourceRecord V)}
          → find (put t rec.entity (write_entity rec (find t rec.entity))) q.entity ≡ some recs
          → text_eq rec.entity q.entity ≡ true
          → write_entity rec (find t rec.entity) ≡ recs
      written f same = some_injective' (sym (stands same) ∙ f)
        where
          some_injective' : {a b : List (ResourceRecord V)} → some a ≡ some b → a ≡ b
          some_injective' e = cc

  write_entity-own :
      (t : Table V) (rec : ResourceRecord V)
      → IsValid t
      → (q : ResourceRecord V) → In q (write_entity rec (find t rec.entity))
      → q.entity ≡ rec.entity
  unfolding IsValid
  write_entity-own t rec valid q i =
      elim ((write_entity-In rec (find t rec.entity) (distinct_in t valid rec.entity) q).0 i) [
        | inl e ↦ ap (λ r. r.entity) (sym e)
        | inr ((recs, e, j), n) ↦ (valid rec.entity recs e).2 q j
      ]

  abbrev AfterWrite : Table V → ResourceRecord V → Text → Type 0
  AfterWrite t rec entity =
      IsValid (put t entity (write_entity rec (find t entity)))
      × ((q : ResourceRecord V)
          → Holds (put t entity (write_entity rec (find t entity))) q
            ↔ ((rec ≡ q) ⊎ Holds t q × (q.entity ≡ entity → q.ts ≢ rec.ts)))

  put_lem :
      (t : Table V) (rec : ResourceRecord V)
      → IsValid t
      → (entity : Text) → rec.entity ≡ entity
      → AfterWrite t rec entity
  put_lem t rec valid entity e =
      subst (λ x. AfterWrite t rec x) e
        (
          put-IsValid t rec.entity (write_entity rec (find t rec.entity)) valid
              (write_entity-nonempty rec (find t rec.entity))
              (write_entity-HasDistinctTimes rec (find t rec.entity)
                (distinct_in t valid rec.entity))
              (write_entity-own t rec valid),
          λ q. put-Holds t rec q valid,
        )

  write_lem :
      (rec : ResourceRecord V) (t : Table V)
      → IsValid t
      → (rec.entity ≡ [] → write rec t ≡ (err missing_entity, t))
        × (rec.entity ≢ []
            → let rec' = check_timestamp rec in
              let after = (write rec t).1 in
              ((write rec t).0 ≡ ok tt)
              × IsValid after
              × ((q : ResourceRecord V)
                  → Holds after q
                    ↔ ((rec' ≡ q) ⊎ Holds t q × ((q.entity ≡ rec.entity → q.ts ≢ rec'.ts)))))
  write_lem rec t valid = (
    write-refused rec t,
    λ named.
        let (valid', holds) =
          put_lem t (check_timestamp rec) valid rec.entity (check_timestamp-entity rec) in
        rw (write-accepted rec t named) (refl, valid', holds),
  )

  -- Writing a record without an entity fails and changes nothing. Any other write to a valid table
  -- succeeds and leaves a valid table, where each entity has at most one record of each time. The
  -- table then holds the record, its time set to the Unix epoch if it was the zero time, and the
  -- records that it held before less the one of the same entity and time.
  pub write-IsValid :
      (rec : ResourceRecord V) (t : Table V)
      → IsValid t
      → let rec' = check_timestamp rec in
        let after = (write rec t).1 in
        ((rec.entity ≡ []) × (write rec t ≡ (err missing_entity, t)))
        ⊎ ((rec.entity ≢ [])
            × ((write rec t).0 ≡ ok tt)
            × IsValid after
            × ((q : ResourceRecord V)
                → Holds after q
                  ↔ ((rec' ≡ q) ⊎ Holds t q × ((q.entity ≡ rec.entity → q.ts ≢ rec'.ts)))))
  write-IsValid rec t valid = elim (Bool-cases (text_eq rec.entity [])) [
    | inl empty ↦
        let e = (text_eq_iff rec.entity []).0 empty in inl (e, (write_lem rec t valid).0 e)
    | inr named ↦
        let n : rec.entity ≢ [] = λ e. ground (arith, (text_eq_iff rec.entity []).1 e, named) in
        let (fine, valid', holds) = (write_lem rec t valid).1 n in inr (n, fine, valid', holds)
  ]

pub new_table-IsValid : (V : Type 0) → IsValid {V = V} new_table
unfolding IsValid find
new_table-IsValid V entity recs h = absurd (ground (arith, h))
