-- ===== src/Serving/Tests.antt =====
-- Rows that are served to a client that takes everything.
use featureform.Common.{
  suc, ◌-◌, ◌^◌, ◌≡◌, ◌≤◌, ◌<◌, ◌↔◌, ◌⊎◌, none, some, List, [], ◌∷◌, ok, length, arith,
}
use featureform.Text.{bytes}
use featureform.Provider.Offline.Store.{TrainingRow}
use featureform.Provider.Offline.Iterator.{new_iterator}
use featureform.Serving.Values.{
  GoValue, go_string, go_int, other, Value, wrap_value, int_in, wrap_value-int_iff,
}
use featureform.Serving.Streams.{Send, training_data_loop}
use featureform.Serving.Streams.Rows.{Serves, training_data_loop-served}

wrap_value-int_example :
    (v : Value) × (wrap_value (some (go_int 5000000000)) ≡ ok v)
    × ((int_in v ≡ 5000000000) ↔ ((5000000000 < 2 ^ 31) ⊎ (2 ^ 64 - 2 ^ 31 ≤ 5000000000)))
wrap_value-int_example = wrap_value-int_iff 5000000000 (omega arith)

abbrev takes_all : Send
takes_all sent row = ok tt

-- The second row has a feature that cannot be served.
abbrev two_rows : List (TrainingRow GoValue)
two_rows =
    record { features = some (go_int 7) ∷ none ∷ []; label = some (go_string (bytes "yes")) }
    ∷ record { features = some other ∷ []; label = none }
    ∷ []

training_data_loop_example :
    Serves takes_all [] two_rows
      (training_data_loop takes_all (suc (length two_rows)) [] (new_iterator two_rows))
training_data_loop_example = training_data_loop-served takes_all two_rows
