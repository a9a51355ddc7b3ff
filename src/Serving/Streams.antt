-- ===== src/Serving/Streams.antt =====
-- newserving/serving.go: `TrainingData` and `FeatureServe`. The metrics and the log are left out. A
-- provider is what `provider.Get` and `AsOfflineStore` or `AsOnlineStore` make of a type and a
-- configuration: a parameter.
pub mod Rows
use featureform.Common.{
  ℕ, zero, suc, Bool, true, false, Option, none, some, List, [], ◌∷◌, ◌++◌, Result, ok, err, ◌>>=◌,
  Map, find, put, length,
}
use featureform.Text.{Text, text_keys}
use featureform.Metadata.Types.{NameVariant}
use featureform.Metadata.Types
use featureform.Metadata.Lookup.{ResourceLookup}
use featureform.Metadata.Client.{get_training_set_variant, get_feature_variant, get_provider}
use featureform.Provider.Offline.Types as Offline
use featureform.Provider.Offline.Store.{MemoryOfflineStore, TrainingRow, get_training_set}
use featureform.Provider.Offline.Iterator.{Iterator, next, current}
use featureform.Provider.Online
use featureform.Provider.Online.{TableKey, LocalOnlineStore, get_table}
use featureform.Serving.Values.{GoValue, Value, InvalidValue, Row, wrap_value, serialized_row}

-- What a request may fail with. `still_serving` is the end of the model's fuel.
pub data Error : Type 0 where
  metadata : Types.Error → Error
  offline : Offline.Error → Error
  online : Online.Error → Error
  invalid : InvalidValue → Error
  stream : Text → Error
  no_provider : Text → Error
  no_entity : Text → Error
  still_serving : Error

abbrev pub from_metadata {ℓ} : {A : Type ℓ} → Result Types.Error A → Result Error A
from_metadata (ok a) = ok a
from_metadata (err e) = err (metadata e)

abbrev pub from_offline {ℓ} : {A : Type ℓ} → Result Offline.Error A → Result Error A
from_offline (ok a) = ok a
from_offline (err e) = err (offline e)

abbrev pub from_online {ℓ} : {A : Type ℓ} → Result Online.Error A → Result Error A
from_online (ok a) = ok a
from_online (err e) = err (online e)

-- What `stream.Send` reports of one more row after those that were sent.
abbrev pub Send : Type 0
Send = List Row → Row → Result Text (Unit {0})

-- One turn of the loop of `TrainingData`, with the row that the iterator is at: it goes on with what
-- is sent, or ends with an error.
unfoldable pub serve_row :
    Send → List Row → Result Offline.Error (TrainingRow GoValue) → Result Error (List Row)
serve_row send sent (err e) = err (offline e)
serve_row send sent (ok r) = elim (serialized_row r.features r.label) [
  | err e ↦ err (invalid e)
  | ok row ↦ elim (send sent row) [ err e ↦ err (stream e) | ok u ↦ ok (sent ++ (row ∷ [])) ]
]

-- The loop of `TrainingData`: whether it ended without an error, and the rows that were sent. `Err` of
-- the memory store's iterator is nil.
unfoldable pub training_data_loop :
    Send → ℕ → List Row → Iterator (TrainingRow GoValue) → Result Error (Unit {0}) × List Row
unfolding serve_row
training_data_loop send zero sent it = (err still_serving, sent)
training_data_loop send (suc fuel) sent it =
    let (more, it') = next it in
    let on = λ (sent' : List Row). training_data_loop send fuel sent' it' in
    elim more [
      | false ↦ (ok tt, sent)
      | true ↦ elim (serve_row send sent (current it')) [
        | err e ↦ (err e, sent)
        | ok sent' ↦ on sent'
      ]
    ]

module _ {W : Type 0} (L : ResourceLookup W)
    (offline_store : Text → Text → W → Result Text (MemoryOfflineStore GoValue))
    (online_store : Text → Text → W → Result Text (LocalOnlineStore GoValue)) where
  provided : {A : Type 0} → Result Text A → Result Error A
  provided (ok a) = ok a
  provided (err e) = err (no_provider e)

  -- `getTrainingSetIterator`
  unfoldable pub get_training_set_iterator :
      Text → Text → W → Result Error (Iterator (TrainingRow GoValue))
  unfolding provided
  get_training_set_iterator name variant w = do
    ts ← from_metadata (get_training_set_variant L (record { name = name; variant = variant }) w)
    provider ← from_metadata (get_provider L ts.provider w)
    store ← provided (offline_store provider.type provider.serialized_config w)
    from_offline
        (get_training_set (record { name = name; variant = variant; type = Offline.no_type }) store)

  -- `TrainingData`
  unfoldable pub training_data : Send → ℕ → Text → Text → W → Result Error (Unit {0}) × List Row
  unfolding get_training_set_iterator training_data_loop
  training_data send fuel name variant w = elim (get_training_set_iterator name variant w) [
    | err e ↦ (err e, [])
    | ok it ↦ training_data_loop send fuel [] it
  ]

  -- `entityMap`
  unfoldable pub entity_map : Map Text Text → List (Text × Text) → Map Text Text
  entity_map m [] = m
  entity_map m ((name, value) ∷ entities) = entity_map (put m name value) entities

  entity_of : Map Text Text → Text → Result Error Text
  entity_of entities entity = elim (find entities entity) [
    | none ↦ err (no_entity entity)
    | some value ↦ ok value
  ]

  wrapped : Option GoValue → Result Error Value
  wrapped v = elim (wrap_value v) [ err e ↦ err (invalid e) | ok value ↦ ok value ]

  -- `getFeatureValue`
  unfoldable pub get_feature_value : NameVariant → Map Text Text → W → Result Error Value
  unfolding provided entity_of wrapped
  get_feature_value nv entities w = do
    feature ← from_metadata (get_feature_variant L nv w)
    entity ← entity_of entities feature.entity
    provider ← from_metadata (get_provider L feature.provider w)
    store ← provided (online_store provider.type provider.serialized_config w)
    table ← from_online (get_table (record { feature = nv.name; variant = nv.variant }) store)
    value ← from_online (Online.get table entity store)
    wrapped value

  -- The loop of `FeatureServe`.
  unfoldable pub feature_values : List NameVariant → Map Text Text → W → Result Error (List Value)
  unfolding get_feature_value
  feature_values [] entities w = ok []
  feature_values (f ∷ fs) entities w = do
    value ← get_feature_value f entities w
    rest ← feature_values fs entities w
    ok (value ∷ rest)

  -- `FeatureServe`
  unfoldable pub feature_serve :
      List NameVariant → List (Text × Text) → W → Result Error (List Value)
  unfolding feature_values entity_map
  feature_serve features entities w = feature_values features (entity_map [] entities) w
