-- ===== src/Serving/Values.antt =====
-- newserving/serialize.go: the values that are served. A number of Go stands for its bits: a signed
-- one for its two's complement, a float for its IEEE 754 encoding.
use featureform.Common.{
  ℕ, ◌+◌, ◌-◌, ◌%◌, ◌^◌, ◌≡◌, ◌≤◌, ◌<◌, ◌↔◌, ◌⊎◌, refl, Bool, Option, none, some, List, [], ◌∷◌,
  ◌++◌, Result, ok, err, ◌>>=◌, arith, if◌then◌else◌, ltb,
}
use featureform.Text.{Text}

-- `pb.Value`
pub data Value : Type 0 where
  str_value : Text → Value
  float_value double_value int_value int32_value int64_value : ℕ → Value
  bool_value : Bool → Value

-- What an `interface{}` of `wrapValue` may hold, nil left out: `other` is a value of any other type.
pub data GoValue : Type 0 where
  go_string : Text → GoValue
  go_float32 go_float64 go_int go_int32 go_int64 : ℕ → GoValue
  go_bool : Bool → GoValue
  go_value : Value → GoValue
  other : GoValue

pub data InvalidValue : Type 0 where
  invalid_value : InvalidValue

-- `int32(val)` of an int: its lower 32 bits.
unfoldable pub wrap_int : ℕ → Value
wrap_int val = int_value (val % 2 ^ 32)

-- `wrapValue`, with `wrapStr`, `wrapFloat` and the others: nil is wrapped as the empty string.
unfoldable pub wrap_value : Option GoValue → Result InvalidValue Value
unfolding wrap_int
wrap_value none = ok (str_value [])
wrap_value (some (go_string s)) = ok (str_value s)
wrap_value (some (go_float32 x)) = ok (float_value x)
wrap_value (some (go_float64 x)) = ok (double_value x)
wrap_value (some (go_int n)) = ok (wrap_int n)
wrap_value (some (go_int32 n)) = ok (int32_value n)
wrap_value (some (go_int64 n)) = ok (int64_value n)
wrap_value (some (go_bool b)) = ok (bool_value b)
wrap_value (some (go_value v)) = ok v
wrap_value (some other) = err invalid_value

-- `pb.TrainingDataRow`
pub record Row : Type 0 where
  pub features : List Value
  pub label : Option Value

-- `emptyRow`
abbrev pub empty_row : Row
empty_row = record { features = []; label = none }

-- `row.AddFeature`
unfoldable pub add_feature : Option GoValue → Row → Result InvalidValue Row
unfolding wrap_value
add_feature feature row = do
  value ← wrap_value feature
  ok (record row { features = row.features ++ (value ∷ []) })

-- `row.SetLabel`
unfoldable pub set_label : Option GoValue → Row → Result InvalidValue Row
unfolding wrap_value
set_label label row = do value ← wrap_value label; ok (record row { label = some value })

-- The loop of `newRow`.
unfoldable pub add_features : List (Option GoValue) → Row → Result InvalidValue Row
unfolding add_feature
add_features [] row = ok row
add_features (f ∷ fs) row = do row' ← add_feature f row; add_features fs row'

-- `newRow` and `serializedRow`
unfoldable pub serialized_row : List (Option GoValue) → Option GoValue → Result InvalidValue Row
unfolding add_features set_label
serialized_row features label = do row ← add_features features empty_row; set_label label row

-- The int64 that a client reads an int32 as: its sign is extended.
unfoldable pub sign_extended : ℕ → ℕ
sign_extended n = if ltb n (2 ^ 31) then n else n + (2 ^ 64 - 2 ^ 32)

-- The int that a client reads of a value that was served for one.
unfoldable pub int_in : Value → ℕ
unfolding sign_extended
int_in (int_value n) = sign_extended n
int_in _ = 0

-- The number that is served for an int is read back as it was exactly if the int fits in 32 bits.
-- Any other int is served as another number, without an error.
pub wrap_value-int_iff :
    (val : ℕ)
    → val < 2 ^ 64
    → (v : Value) × (wrap_value (some (go_int val)) ≡ ok v)
      × ((int_in v ≡ val) ↔ ((val < 2 ^ 31) ⊎ (2 ^ 64 - 2 ^ 31 ≤ val)))
unfolding wrap_value int_in
wrap_value-int_iff val fits = (int_value (val % 2 ^ 32), refl, ground (arith, fits))

-- The values of the features, one by one.
unfoldable pub wrap_all : List (Option GoValue) → Result InvalidValue (List Value)
wrap_all [] = ok []
wrap_all (f ∷ fs) = do v ← wrap_value f; vs ← wrap_all fs; ok (v ∷ vs)
