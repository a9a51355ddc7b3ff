-- ===== src/Runner/Chunks/Cover.antt =====
-- runner/materialize.go and runner/copy.go: which rows the chunks of a plan hold.
use featureform.Common.{
  ℕ, suc, ◌+◌, ◌-◌, ◌*◌, ◌/◌, ◌^◌, ◌≤◌, ◌<◌, ◌≡◌, ap, ◌∙◌, inl, inr, arith, leb, Bool-cases,
  if◌then◌else◌,
}
use featureform.Runner.Chunks.{plan, chunks_of, row_start, row_end}

-- The row lies between the bounds of the chunk.
unfoldable pub IsIn : ℕ → ℕ → ℕ → ℕ → Type 0
IsIn chunk_size num_rows chunk_idx i =
    (row_start chunk_size chunk_idx ≤ i) × (i < row_end chunk_size chunk_idx num_rows)

plan-small : (n : ℕ) → n ≤ 1024 → plan n ≡ (n, 1)
unfolding plan
plan-small n h = ground arith

plan-large : (n : ℕ) → 1024 < n → n < 2 ^ 63 → plan n ≡ (1024, (n + 1023) / 1024)
unfolding plan chunks_of
plan-large n h fits = ground arith

start_of_first : (n : ℕ) → row_start n 0 ≡ 0
unfolding row_start
start_of_first n = ground arith

end_of_first : (n : ℕ) → n + 1024 < 2 ^ 63 → row_end n 0 n ≡ n
unfolding row_start row_end
end_of_first n fits = ground arith

start_of : (k : ℕ) → k * 1024 < 2 ^ 63 → row_start 1024 k ≡ k * 1024
unfolding row_start
start_of k fits = ground arith

end_of :
    (n k : ℕ)
    → n + 1024 < 2 ^ 63
    → k * 1024 < n
    → row_end 1024 k n ≡ (if leb (k * 1024 + 1024) n then k * 1024 + 1024 else n)
unfolding row_start row_end
end_of n k fits begun = ground arith

-- What a plan is good for: each row lies in one chunk and in no other, every chunk lies within the
-- rows, and where it starts, and where it would end uncut, is computed without an overflow.
pub record Covers (num_rows chunk_size num_chunks : ℕ) : Type 0 where
  pub chunk_of : ℕ → ℕ
  pub covered :
      (i : ℕ) → i < num_rows → chunk_of i < num_chunks × IsIn chunk_size num_rows (chunk_of i) i
  pub unique :
      (i k : ℕ) → i < num_rows → k < num_chunks → IsIn chunk_size num_rows k i → k ≡ chunk_of i
  pub ordered : (k : ℕ) → k < num_chunks → row_start chunk_size k ≤ row_end chunk_size k num_rows
  pub within : (k : ℕ) → k < num_chunks → row_end chunk_size k num_rows ≤ num_rows
  pub no_overflow :
      (k : ℕ)
      → k < num_chunks
      → (row_start chunk_size k ≡ k * chunk_size) × (k * chunk_size + chunk_size < 2 ^ 63)

first_only : (k : ℕ) → k < 1 → k ≡ 0
first_only k lt = omega (arith, lt)

one_chunk : (n : ℕ) → n ≤ 1024 → Covers n n 1
unfolding IsIn
one_chunk n small =
    let fits : n + 1024 < 2 ^ 63 = omega (arith, small) in
    record {
      chunk_of = λ i. 0;
      covered = λ i h. (omega arith, rw (start_of_first n, end_of_first n fits) (omega arith, h));
      unique = λ i k h lt p. first_only k lt;
      ordered = λ k lt. rw (first_only k lt) (rw (start_of_first n) (omega arith));
      within = λ k lt. rw (first_only k lt) (rw (end_of_first n fits) (omega arith));
      no_overflow =
          λ k lt. rw (first_only k lt) (start_of_first n ∙ omega arith, omega (arith, small));
    }

module _ (n : ℕ) (fits : n + 1024 < 2 ^ 63) where
  begun : (k : ℕ) → k < (n + 1023) / 1024 → k * 1024 < n
  begun k lt = omega (arith, lt)

  start_at : (k : ℕ) → k < (n + 1023) / 1024 → row_start 1024 k ≡ k * 1024
  start_at k lt = start_of k (omega (arith, begun k lt, fits))

  end_at :
      (k : ℕ)
      → k < (n + 1023) / 1024
      → row_end 1024 k n ≡ (if leb (k * 1024 + 1024) n then k * 1024 + 1024 else n)
  end_at k lt = end_of n k fits (begun k lt)

  last_chunk : (i : ℕ) → i < n → i / 1024 < (n + 1023) / 1024
  last_chunk i h = omega (arith, h)

  many_chunks : Covers n 1024 ((n + 1023) / 1024)
  unfolding IsIn
  many_chunks = record {
    chunk_of = λ i. i / 1024;
    covered = λ i h. (
      last_chunk i h,
      (
        rw (start_at (i / 1024) (last_chunk i h)) (omega arith),
        rw (end_at (i / 1024) (last_chunk i h)) (ground (arith, h)),
      ),
    );
    unique = λ i k h lt p. ground (arith, rw (start_at k lt) at p.0, rw (end_at k lt) at p.1);
    ordered = λ k lt. rw (start_at k lt, end_at k lt) (ground (arith, begun k lt));
    within = λ k lt. rw (end_at k lt) (ground arith);
    no_overflow = λ k lt. (start_at k lt, omega (arith, begun k lt, fits));
  }

-- The chunks that `MaterializeRunner.Run` plans for a materialization cover its rows, if an int64
-- holds their number and one full chunk more: each row lies in exactly one chunk. No chunk starts
-- after its end or ends after the last row, and neither its start nor its end before the cut
-- overflows.
pub plan-Covers : (n : ℕ) → n + 1024 < 2 ^ 63 → Covers n (plan n).0 (plan n).1
plan-Covers n fits = elim (Bool-cases (leb n 1024)) [
  | inl small ↦ rw (plan-small n (ground (arith, small))) (one_chunk n (ground (arith, small)))
  | inr large ↦ rw (plan-large n (ground (arith, large)) (omega (arith, fits))) (many_chunks n fits)
]

-- There is a chunk to start, at least.
pub plan-some : (n : ℕ) → n < 2 ^ 63 → (k : ℕ) × ((plan n).1 ≡ suc k)
plan-some n fits = elim (Bool-cases (leb n 1024)) [
  | inl small ↦ (0, ap (λ p. p.1) (plan-small n (ground (arith, small))))
  | inr large ↦ (
    (n + 1023) / 1024 - 1,
    ap (λ p. p.1) (plan-large n (ground (arith, large)) fits) ∙ ground (arith, large),
  )
]

-- Only of no rows are the chunks empty.
pub plan-size : (n : ℕ) → n < 2 ^ 63 → (plan n).0 ≡ 0 → n ≡ 0
unfolding plan
plan-size n fits empty = ground (arith, empty)
