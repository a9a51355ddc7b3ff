-- ===== src/Provider/Offline/Iterator.antt =====
-- provider/offline.go: `memoryTrainingRowsIterator` and `memoryFeatureIterator`, which are the same
-- code over rows and over records. `idx` counts from 1 here: 0 is the -1 of an iterator not started.
pub mod Segments
use featureform.Common.{
  ℕ, zero, suc, ◌+◌, ◌-◌, ◌≡◌, ◌<◌, refl, sym, ap, ◌∙◌, Bool, true, false, ◌||◌, none, some, List,
  [], ◌∷◌, length, get_elem?, if◌then◌else◌, ◌==◌, ltb, Result, ok, err, arith,
}
use featureform.Provider.Offline.Types.{Error, panic}

-- `type memoryTrainingRowsIterator struct`
pub record Iterator (A : Type 0) : Type 0 where
  pub elements : List A
  pub idx : ℕ

module _ {A : Type 0} where
  -- `newMemoryTrainingSetIterator`
  abbrev pub new_iterator : List A → Iterator A
  new_iterator elements = record { elements = elements; idx = 0 }

  -- `Next`
  unfoldable pub next : Iterator A → Bool × Iterator A
  next it =
      if it.idx == length it.elements then (false, it) else (true, record it { idx = suc it.idx })

  current_at : List A → ℕ → Result Error A
  current_at xs zero = err panic
  current_at xs (suc i) = elim (get_elem? xs i) [ none ↦ err panic | some x ↦ ok x ]

  -- `Features`, `Label` and `Value`: the element at the index.
  unfoldable pub current : Iterator A → Result Error A
  unfolding current_at
  current it = current_at it.elements it.idx

  drain_more : Bool → Result Error A → Result Error (List A) → Result Error (List A)
  drain_more false x rest = ok []
  drain_more true (err e) rest = err e
  drain_more true (ok x) (err e) = err e
  drain_more true (ok x) (ok xs) = ok (x ∷ xs)

  -- A client that calls Next until it returns false and takes each element.
  unfoldable pub drain : ℕ → Iterator A → Result Error (List A)
  unfolding drain_more
  drain zero it = err panic
  drain (suc fuel) it = let (more, it') = next it in drain_more more (current it') (drain fuel it')

  take : ℕ → List A → List A
  take zero xs = []
  take (suc n) [] = []
  take (suc n) (x ∷ xs) = x ∷ take n xs

  unfoldable pub drop : ℕ → List A → List A
  drop zero xs = xs
  drop (suc n) [] = []
  drop (suc n) (x ∷ xs) = drop n xs

  -- `data[start:end]`, for a slice that is as long as its capacity.
  unfoldable pub segment : List A → ℕ → ℕ → Result Error (List A)
  unfolding take drop
  segment elements start end =
      if ltb end start || ltb (length elements) end
      then err panic
      else ok (take (end - start) (drop start elements))

  drain-end :
      (fuel : ℕ) (xs : List A) (i : ℕ)
      → (i == length xs) ≡ true
      → drain (suc fuel) (record { elements = xs; idx = i }) ≡ ok []
  unfolding drain next
  drain-end fuel xs i at_end = rw at_end refl

  pub next-inside :
      (xs : List A) (i : ℕ)
      → (i == length xs) ≡ false
      → next (record { elements = xs; idx = i }) ≡ (true, record { elements = xs; idx = suc i })
  unfolding next
  next-inside xs i inside = rw inside refl

  drain-unfold :
      (fuel : ℕ) (it : Iterator A)
      → drain (suc fuel) it ≡ drain_more (next it).0 (current (next it).1) (drain fuel (next it).1)
  unfolding drain
  drain-unfold fuel it = refl

  pub current-inside :
      (xs : List A) (i : ℕ) (x : A)
      → get_elem? xs i ≡ some x
      → current (record { elements = xs; idx = suc i }) ≡ ok x
  unfolding current current_at
  current-inside xs i x here = rw (here, current, current_at) refl

  drain-step :
      (fuel : ℕ) (xs : List A) (i : ℕ) (x : A) (rest : List A)
      → (i == length xs) ≡ false
      → get_elem? xs i ≡ some x
      → drain fuel (record { elements = xs; idx = suc i }) ≡ ok rest
      → drain (suc fuel) (record { elements = xs; idx = i }) ≡ ok (x ∷ rest)
  unfolding drain_more
  drain-step fuel xs i x rest inside here later =
      drain-unfold fuel (record { elements = xs; idx = i })
      ∙ rw (next-inside xs i inside) (rw (current-inside xs i x here) (rw later refl))

  pub drop-get :
      (xs : List A) (i : ℕ)
      → i < length xs
      → (x : A) × (get_elem? xs i ≡ some x) × (drop i xs ≡ x ∷ drop (suc i) xs)
  unfolding drop
  drop-get [] i h = absurd (ground (arith, h))
  drop-get (x ∷ xs) zero h = (x, refl, refl)
  drop-get (x ∷ xs) (suc i) h = drop-get xs i (omega (arith, h))

  pub drop-length : (xs : List A) → drop (length xs) xs ≡ []
  unfolding drop
  drop-length [] = refl
  drop-length (x ∷ xs) = drop-length xs

  drain-from :
      (k : ℕ) (xs : List A) (i : ℕ)
      → i + k ≡ length xs
      → drain (suc k) (record { elements = xs; idx = i }) ≡ ok (drop i xs)
  drain-from zero xs i h =
      drain-end zero xs i (ground (arith, h)) ∙ rw (i-is-length) (sym (ap ok (drop-length xs)))
    where
      i-is-length : i ≡ length xs
      i-is-length = omega (arith, h)
  drain-from (suc k) xs i h =
      let (x, here, rest) = drop-get xs i (omega (arith, h)) in
      drain-step (suc k) xs i x (drop (suc i) xs) (ground (arith, h)) here
        (drain-from k xs (suc i) (omega (arith, h)))
      ∙ ap ok (sym rest)

  -- A client that calls `Next` until it returns false meets every element once, in order, and never
  -- indexes out of range: as many calls as there are elements, and one, are enough.
  pub drain-new_iterator : (xs : List A) → drain (suc (length xs)) (new_iterator xs) ≡ ok xs
  unfolding drop
  drain-new_iterator xs = drain-from (length xs) xs 0 (omega arith)
