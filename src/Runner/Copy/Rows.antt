-- ===== src/Runner/Copy/Rows.antt =====
-- runner/copy.go: what one runner copies.
use featureform.Common.{
  ℕ, zero, suc, ◌+◌, ◌-◌, ◌^◌, ◌≡◌, ◌≤◌, ◌<◌, refl, sym, ap, subst, ◌∙◌, true, false, List, [], ◌∷◌,
  inl, inr, ◌⊎◌, In, length, get_elem?, Option, some, Result, ok, arith, Bool-cases, ◌==◌, ◌||◌,
  ◌&&◌, if◌then◌else◌,
}
use featureform.Text.{Text, text_eq, text_eq_iff}
use featureform.Provider.Offline.Types.{ResourceRecord}
use featureform.Provider.Offline.Iterator.{segment}
use featureform.Provider.Offline.Iterator.Segments.{segment-get_elem}
use featureform.Provider.Online
use featureform.Provider.Online.{TableKey, key_eq, key_eq_iff, LocalOnlineStore, set, get}
use featureform.Provider.Online.Laws.{get-set}
use featureform.Runner.Chunks.{plan, row_start, row_end}
use featureform.Runner.Chunks.Cover.{IsIn, Covers, plan-Covers, plan-size}
use featureform.Runner.Copy.{MaterializedChunkRunner, chunk_rows, copy_rows, run}

In-get_elem :
    {A : Type 0} (xs : List A) (a : A)
    → In a xs
    → (i : ℕ) × (i < length xs) × (get_elem? xs i ≡ some a)
In-get_elem [] a i = absurd i
In-get_elem (x ∷ xs) a (inl e) = (0, omega arith, ap some e)
In-get_elem (x ∷ xs) a (inr i) =
    let (k, lt, e) = In-get_elem xs a i in (suc k, omega (arith, lt), e)

get_elem-In : {A : Type 0} (xs : List A) (a : A) (i : ℕ) → get_elem? xs i ≡ some a → In a xs
get_elem-In [] a i h = absurd (ground (arith, h))
get_elem-In (x ∷ xs) a zero h = inl (ground (arith, h))
get_elem-In (x ∷ xs) a (suc i) h = inr (get_elem-In xs a i h)

get_elem-lt : {A : Type 0} (xs : List A) (a : A) (i : ℕ) → get_elem? xs i ≡ some a → i < length xs
get_elem-lt [] a i h = absurd (ground (arith, h))
get_elem-lt (x ∷ xs) a zero h = omega arith
get_elem-lt (x ∷ xs) a (suc i) h = omega (arith, get_elem-lt xs a i h)

module _ {V : Type 0} (m : MaterializedChunkRunner V) where
  -- What the rows of the runner's chunk are.
  record IsChunk (part : List (ResourceRecord V)) : Type 0 where
    place :
        (r : ResourceRecord V)
        → In r part
        → (i : ℕ) × IsIn m.chunk_size (length m.materialized) m.chunk_idx i
          × (get_elem? m.materialized i ≡ some r)
    holds :
        (i : ℕ) (r : ResourceRecord V)
        → IsIn m.chunk_size (length m.materialized) m.chunk_idx i
        → get_elem? m.materialized i ≡ some r
        → In r part

  start : ℕ
  start = row_start m.chunk_size m.chunk_idx

  end : ℕ
  end = row_end m.chunk_size m.chunk_idx (length m.materialized)

  nothing-IsChunk : start ≡ end ⊎ (length m.materialized ≡ 0) → IsChunk []
  unfolding IsIn start end
  nothing-IsChunk h = record {
    place = λ r i. absurd i;
    holds = λ i r p e. absurd (ground (arith, p.0, p.1, h, get_elem-lt m.materialized r i e));
  }

  segment-IsChunk :
      (part : List (ResourceRecord V))
      → ((j : ℕ) → j < end - start → get_elem? part j ≡ get_elem? m.materialized (start + j))
      → length part ≡ end - start
      → IsChunk part
  unfolding IsIn start end
  segment-IsChunk part at size = record {
    place = λ r i.
        let (j, lt, e) = In-get_elem part r i in
        (start + j, (omega arith, omega (arith, lt, size)), sym (at j (rw size at lt)) ∙ e);
    holds = λ i r (low, high) e. get_elem-In part r (i - start) (
        at (i - start) (omega (arith, low, high))
        ∙ ap (get_elem? m.materialized) (omega (arith, low))
        ∙ e);
  }

  segment_rows :
      (part : List (ResourceRecord V))
      → (m.chunk_size == 0 || length m.materialized == 0) ≡ false
      → segment m.materialized start end ≡ ok part
      → chunk_rows m ≡ ok part
  unfolding chunk_rows start end
  segment_rows part some_rows e = rw e (ground (arith, some_rows))

  chunk_rows-IsChunk :
      ((m.chunk_size == 0 || length m.materialized == 0) ≡ true → length m.materialized ≡ 0)
      → start ≤ end
      → end ≤ length m.materialized
      → (part : List (ResourceRecord V)) × (chunk_rows m ≡ ok part) × IsChunk part
  unfolding chunk_rows
  chunk_rows-IsChunk none_of ordered within =
      elim (Bool-cases (m.chunk_size == 0 || length m.materialized == 0)) [
        | inl empty ↦ ([], ground (arith, empty), nothing-IsChunk (inr (none_of empty)))
        | inr rest ↦ elim (segment-get_elem m.materialized start end) [
          | inl (h, k, (part, e, size, at)) ↦
              (part, segment_rows part rest e, segment-IsChunk part at size)
          | inr (outside, e) ↦ absurd (omega (arith, outside, ordered, within))
        ]
      ]

module _ {V : Type 0} (table : TableKey) where
  -- What a Get answers after the rows are set, from what it answered before.
  written :
      TableKey
      → Text
      → List (ResourceRecord V)
      → Result Online.Error (Option V)
      → Result Online.Error (Option V)
  written key e [] answer = answer
  written key e (r ∷ rs) answer =
      written key e rs (if key_eq table key && text_eq r.entity e then ok r.value else answer)

  copy_rows-ok :
      (rs : List (ResourceRecord V)) (s : LocalOnlineStore V) → (copy_rows table rs s).0 ≡ ok tt
  unfolding copy_rows set
  copy_rows-ok [] s = refl
  copy_rows-ok (r ∷ rs) s = copy_rows-ok rs (set table r.entity r.value s).1

  copy_rows-get :
      (rs : List (ResourceRecord V)) (s : LocalOnlineStore V) (key : TableKey) (e : Text)
      → get key e (copy_rows table rs s).1 ≡ written key e rs (get key e s)
  unfolding copy_rows written set
  copy_rows-get [] s key e = refl
  copy_rows-get (r ∷ rs) s key e =
      copy_rows-get rs (set table r.entity r.value s).1 key e
      ∙ ap (written key e rs) (get-set s table key r.entity e r.value)

  -- Rows of the entity all have the value, and the answer has it already or one of them is set.
  written-value :
      (rs : List (ResourceRecord V)) (e : Text) (v : Option V)
      (answer : Result Online.Error (Option V))
      → ((q : ResourceRecord V) → In q rs → q.entity ≡ e → q.value ≡ v)
      → (answer ≡ ok v) ⊎ ((r : ResourceRecord V) × In r rs × (r.entity ≡ e))
      → written table e rs answer ≡ ok v
  unfolding written
  written-value [] e v answer same (inl there) = there
  written-value [] e v answer same (inr (r, i, own)) = absurd i
  written-value (x ∷ xs) e v answer same h = elim (Bool-cases (text_eq x.entity e)) [
    | inl own ↦
        written-value xs e v _ (λ q i. same q (inr i))
          (inl (
            ground (arith, key_eq_iff table table, own)
            ∙ ap ok (same x (inl refl) ((text_eq_iff x.entity e).0 own))))
    | inr differ ↦
        written-value xs e v _ (λ q i. same q (inr i))
          (elim h [
            | inl there ↦ inl (ground (arith, differ) ∙ there)
            | inr (r, inl first, own) ↦
                absurd (ground (arith, differ, (text_eq_iff x.entity e).1 (rw first own)))
            | inr (r, inr later, own) ↦ inr (r, later, own)
          ])
  ]

  written-other :
      (rs : List (ResourceRecord V)) (key : TableKey) (e : Text)
      (answer : Result Online.Error (Option V))
      → ((r : ResourceRecord V) → In r rs → (key_eq table key && text_eq r.entity e) ≡ false)
      → written key e rs answer ≡ answer
  unfolding written
  written-other [] key e answer differ = refl
  written-other (x ∷ xs) key e answer differ =
      rw (differ x (inl refl)) (written-other xs key e answer (λ r i. differ r (inr i)))

-- Records of the same entity are the same record.
unfoldable pub HasDistinctEntities : {V : Type 0} → List (ResourceRecord V) → Type 0
HasDistinctEntities {V} rows =
    (r q : ResourceRecord V) → In r rows → In q rows → r.entity ≡ q.entity → r ≡ q

module _ {V : Type 0} (m : MaterializedChunkRunner V) (s : LocalOnlineStore V) where
  run-rows :
      (part : List (ResourceRecord V)) → chunk_rows m ≡ ok part → run m s ≡ copy_rows m.table part s
  unfolding run
  run-rows part e = rw (e, run) refl

  -- A runner with the size and the index of a chunk that `MaterializeRunner.Run` plans for its rows,
  -- an int64 holding the number of the rows and one chunk more, and no two rows having the same
  -- entity: it ends without an error, a Get of the entity of any row of its chunk from its table then
  -- returns the row's value, and a Get in another table or of another entity answers as before.
  pub run-copies :
      length m.materialized + 1024 < 2 ^ 63
      → m.chunk_size ≡ (plan (length m.materialized)).0
      → m.chunk_idx < (plan (length m.materialized)).1
      → HasDistinctEntities m.materialized
      → ((run m s).0 ≡ ok tt)
        × ((i : ℕ) (r : ResourceRecord V)
            → IsIn m.chunk_size (length m.materialized) m.chunk_idx i
            → get_elem? m.materialized i ≡ some r
            → get m.table r.entity (run m s).1 ≡ ok r.value)
        × ((key : TableKey) (e : Text)
            → ((i : ℕ) (r : ResourceRecord V)
                → IsIn m.chunk_size (length m.materialized) m.chunk_idx i
                → get_elem? m.materialized i ≡ some r
                → (key_eq m.table key && text_eq r.entity e) ≡ false)
            → get key e (run m s).1 ≡ get key e s)
  unfolding HasDistinctEntities start end
  run-copies fits size index distinct =
      let n = length m.materialized in
      let covers : Covers n m.chunk_size (plan n).1 =
        subst (λ c. Covers n c (plan n).1) (sym size) (plan-Covers n fits) in
      let (part, found, chunk) =
        chunk_rows-IsChunk m no_rows (covers.ordered m.chunk_idx index)
          (covers.within m.chunk_idx index) in
      let in_rows : (q : ResourceRecord V) → In q part → In q m.materialized =
        λ q i. let (j, is_in, at) = chunk.place q i in get_elem-In m.materialized q j at in
      rw (run-rows part found) (
        copy_rows-ok m.table part s,
        λ i r is_in at.
            let here = chunk.holds i r is_in at in
            copy_rows-get m.table part s m.table r.entity
            ∙ written-value m.table part r.entity r.value (get m.table r.entity s)
                (λ q k own. ap (λ p. p.value) (distinct q r (in_rows q k) (in_rows r here) own))
                (inr (r, here, refl)),
        λ key e others.
            copy_rows-get m.table part s key e
            ∙ written-other m.table part key e (get key e s)
                (λ r k. let (j, is_in, at) = chunk.place r k in others j r is_in at),
      )
    where
      no_rows : (m.chunk_size == 0 || length m.materialized == 0) ≡ true → length m.materialized ≡ 0
      no_rows h = elim (Bool-cases (m.chunk_size == 0)) [
        | inl empty ↦
            plan-size (length m.materialized) (omega (arith, fits))
              (sym size ∙ ground (arith, empty))
        | inr full ↦ ground (arith, h, full)
      ]
