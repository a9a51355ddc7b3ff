-- ===== src/Provider/Online.antt =====
-- provider/online.go: the online store that lives in memory. A table is reached by the key under
-- which its store holds it; a value is an `interface{}`, with `none` for nil.
pub mod Laws
mod Tests
use featureform.Common.{
  ◌≡◌, ◌↔◌, Bool, true, ◌&&◌, Option, none, some, [], Map, find, put, Result, ok, err, Action, Eq,
  arith, refl,
}
use featureform.Text.{Text, text_eq, text_eq_iff, text_keys}

-- `type tableKey struct`
pub record TableKey : Type 0 where
  pub feature : Text
  pub variant : Text

abbrev pub key_eq : TableKey → TableKey → Bool
key_eq a b = text_eq a.feature b.feature && text_eq a.variant b.variant

pub key_eq_iff : (a b : TableKey) → (key_eq a b ≡ true) ↔ (a ≡ b)
key_eq_iff a b = ground (arith, text_eq_iff a.feature b.feature, text_eq_iff a.variant b.variant)

instance abbrev pub key_keys : Eq TableKey
key_keys = record { beq = key_eq; beq_iff = key_eq_iff }

-- `TableNotFound`, `TableAlreadyExists` and `EntityNotFound`
pub data Error : Type 0 where
  table_not_found table_already_exists : TableKey → Error
  entity_not_found : Text → Error

-- `type localOnlineTable map[string]interface{}`
abbrev pub LocalOnlineTable : Type 0 → Type 0
LocalOnlineTable V = Map Text (Option V)

-- `type localOnlineStore struct`
abbrev pub LocalOnlineStore : Type 0 → Type 0
LocalOnlineStore V = Map TableKey (LocalOnlineTable V)

module _ {V : Type 0} where
  -- `NewLocalOnlineStore`
  unfoldable pub new_local_online_store : LocalOnlineStore V
  new_local_online_store = []

  -- `localOnlineStore.GetTable`
  unfoldable pub get_table : TableKey → LocalOnlineStore V → Result Error TableKey
  get_table key s = elim (find s key) [ none ↦ err (table_not_found key) | some t ↦ ok key ]

  -- `localOnlineStore.CreateTable`
  unfoldable pub create_table : TableKey → Action Error (LocalOnlineStore V) TableKey
  create_table key s = elim (find s key) [
    | some t ↦ (err (table_already_exists key), s)
    | none ↦ (ok key, put s key [])
  ]

  -- The map that a handle on a table stands for.
  unfoldable pub table_of : TableKey → LocalOnlineStore V → LocalOnlineTable V
  table_of key s = elim (find s key) [ none ↦ [] | some t ↦ t ]

  -- `localOnlineTable.Set`
  unfoldable pub set : TableKey → Text → Option V → Action Error (LocalOnlineStore V) (Unit {0})
  unfolding table_of
  set key entity value s = (ok tt, put s key (put (table_of key s) entity value))

  -- `localOnlineTable.Get`
  unfoldable pub get : TableKey → Text → LocalOnlineStore V → Result Error (Option V)
  unfolding table_of
  get key entity s = elim (find (table_of key s) entity) [
    | none ↦ err (entity_not_found entity)
    | some value ↦ ok value
  ]
