-- ===== src/Runner/Chunks.antt =====
-- runner/materialize.go and runner/copy.go: how a materialization is cut into chunks, in int64.
pub mod Cover
use featureform.Common.{ℕ, ◌+◌, ◌*◌, ◌/◌, ◌%◌, ◌^◌, Bool, if◌then◌else◌, leb, ltb, ◌==◌}

-- An int64 is the natural number of its 64 bits in two's complement. Sums and products wrap around.
abbrev pub add64 : ℕ → ℕ → ℕ
add64 a b = (a + b) % 2 ^ 64

abbrev pub mul64 : ℕ → ℕ → ℕ
mul64 a b = (a * b) % 2 ^ 64

-- `a < b` and `a <= b` of signed numbers.
abbrev pub lt64 : ℕ → ℕ → Bool
lt64 a b = ltb ((a + 2 ^ 63) % 2 ^ 64) ((b + 2 ^ 63) % 2 ^ 64)

abbrev pub le64 : ℕ → ℕ → Bool
le64 a b = leb ((a + 2 ^ 63) % 2 ^ 64) ((b + 2 ^ 63) % 2 ^ 64)

-- `MAXIMUM_CHUNK_ROWS`
abbrev pub maximum_chunk_rows : ℕ
maximum_chunk_rows = 1024

-- How many chunks of a size the rows take, the last one perhaps cut short. Neither number is
-- negative where this is reached, so the quotient is that of natural numbers.
unfoldable pub chunks_of : ℕ → ℕ → ℕ
chunks_of chunk_size num_rows =
    if lt64 (mul64 chunk_size (num_rows / chunk_size)) num_rows
    then add64 (num_rows / chunk_size) 1
    else num_rows / chunk_size

-- `MaterializeRunner.Run`: the size and the number of the chunks.
unfoldable pub plan : ℕ → ℕ × ℕ
unfolding chunks_of
plan num_rows =
    if le64 num_rows maximum_chunk_rows
    then (num_rows, 1)
    else if maximum_chunk_rows == 0
    then (maximum_chunk_rows, 0)
    else if lt64 maximum_chunk_rows num_rows
    then (maximum_chunk_rows, chunks_of maximum_chunk_rows num_rows)
    else (maximum_chunk_rows, 0)

-- `MaterializedChunkRunner.Run`: `rowStart` and `rowEnd`.
unfoldable pub row_start : ℕ → ℕ → ℕ
row_start chunk_size chunk_idx = mul64 chunk_idx chunk_size

unfoldable pub row_end : ℕ → ℕ → ℕ → ℕ
unfolding row_start
row_end chunk_size chunk_idx num_rows =
    if lt64 num_rows (add64 (row_start chunk_size chunk_idx) chunk_size)
    then num_rows
    else add64 (row_start chunk_size chunk_idx) chunk_size
