-- ===== src/Provider/Offline/Iterator/Segments.antt =====
-- provider/offline.go: the segments of a materialization.
use featureform.Common.{
  ℕ, zero, suc, ◌+◌, ◌-◌, ◌≡◌, ◌≤◌, ◌<◌, refl, ap, ◌∙◌, ◌⊎◌, inl, inr, Bool-cases, true, List, [],
  ◌∷◌, length, get_elem?, ok, err, arith, ltb, ◌||◌,
}
use featureform.Provider.Offline.Types.{panic}
use featureform.Provider.Offline.Iterator.{take, drop, segment}

module _ {A : Type 0} where
  get_elem-drop : (n : ℕ) (xs : List A) (i : ℕ) → get_elem? (drop n xs) i ≡ get_elem? xs (n + i)
  unfolding drop
  get_elem-drop zero xs i = ap (get_elem? xs) (omega arith)
  get_elem-drop (suc n) [] i = refl
  get_elem-drop (suc n) (x ∷ xs) i = get_elem-drop n xs i ∙ ap (get_elem? (x ∷ xs)) (shifted n i)
    where
      shifted : (a b : ℕ) → suc (a + b) ≡ suc a + b
      shifted a b = omega arith

  get_elem-take : (n : ℕ) (xs : List A) (i : ℕ) → i < n → get_elem? (take n xs) i ≡ get_elem? xs i
  unfolding take
  get_elem-take zero xs i h = absurd (omega (arith, h))
  get_elem-take (suc n) [] i h = refl
  get_elem-take (suc n) (x ∷ xs) zero h = refl
  get_elem-take (suc n) (x ∷ xs) (suc i) h = get_elem-take n xs i (omega (arith, h))

  length-take : (n : ℕ) (xs : List A) → n ≤ length xs → length (take n xs) ≡ n
  unfolding take
  length-take zero xs h = refl
  length-take (suc n) [] h = absurd (omega (arith, h))
  length-take (suc n) (x ∷ xs) h = ap suc (length-take n xs (omega (arith, h)))

  length-drop : (n : ℕ) (xs : List A) → length (drop n xs) ≡ length xs - n
  unfolding drop
  length-drop zero xs = omega arith
  length-drop (suc n) [] = omega arith
  length-drop (suc n) (x ∷ xs) = omega (arith, length-drop n xs)

  segment-inside :
      (xs : List A) (start end : ℕ)
      → start ≤ end
      → end ≤ length xs
      → segment xs start end ≡ ok (take (end - start) (drop start xs))
  unfolding segment
  segment-inside xs start end h k = ground (arith, h, k)

  segment-outside :
      (xs : List A) (start end : ℕ)
      → (ltb end start || ltb (length xs) end) ≡ true
      → segment xs start end ≡ err panic
  unfolding segment
  segment-outside xs start end h = rw h refl

  -- A segment within the rows has as many rows as its bounds are apart, the row at the first bound
  -- and those that follow it. A segment that ends before it starts, or after the last row, panics.
  pub segment-get_elem :
      (xs : List A) (start end : ℕ)
      → ((start ≤ end)
          × (end ≤ length xs)
          × ((ys : List A) × (segment xs start end ≡ ok ys)
              × (length ys ≡ end - start)
              × ((i : ℕ) → i < end - start → get_elem? ys i ≡ get_elem? xs (start + i))))
        ⊎ ((end < start) ⊎ (length xs < end)) × (segment xs start end ≡ err panic)
  segment-get_elem xs start end = elim (Bool-cases (ltb end start || ltb (length xs) end)) [
    | inl outside ↦ inr (ground (arith, outside), segment-outside xs start end outside)
    | inr inside ↦
        let h : start ≤ end = ground (arith, inside) in
        let k : end ≤ length xs = ground (arith, inside) in
        inl (
          h,
          k,
          (
            take (end - start) (drop start xs),
            segment-inside xs start end h k,
            length-take (end - start) (drop start xs) (omega (arith, length-drop start xs, h, k)),
            λ i le. get_elem-take (end - start) (drop start xs) i le ∙ get_elem-drop start xs i,
          ),
        )
  ]
