-- ===== src/Provider/Online/Laws.antt =====
-- provider/online.go: what the tables of the store in memory answer after a write.
use featureform.Common.{
  ◌≡◌, refl, [], ◌&&◌, Option, none, some, find, put, find-put, ok, err, if◌then◌else◌, arith,
  Bool-cases, inl, inr,
}
use featureform.Text.{Text, text_eq, text_keys}
use featureform.Provider.Online.{
  TableKey, key_eq, key_eq_iff, key_keys, table_already_exists, entity_not_found, LocalOnlineStore,
  LocalOnlineTable, get_table, create_table, table_of, set, get,
}

module _ {V : Type 0} where
  pub table_of-put :
      (s : LocalOnlineStore V) (key : TableKey) (t : LocalOnlineTable V) (other : TableKey)
      → table_of other (put s key t) ≡ (if key_eq key other then t else table_of other s)
  unfolding table_of
  table_of-put s key t other = elim (Bool-cases (key_eq key other)) [
    | inl same ↦ rw (find-put s key t other, table_of) (rw same refl)
    | inr differ ↦ rw (find-put s key t other, table_of) (rw differ refl)
  ]

  pub get-found :
      (s : LocalOnlineStore V) (key : TableKey) (entity : Text) (value : Option V)
      → find (table_of key s) entity ≡ some value
      → get key entity s ≡ ok value
  unfolding get
  get-found s key entity value h = rw (h, get) refl

  set_lem :
      (s : LocalOnlineStore V) (key : TableKey) (entity : Text) (value : Option V)
      → (set key entity value s).1 ≡ put s key (put (table_of key s) entity value)
  unfolding set
  set_lem s key entity value = refl

  cell-put :
      (s : LocalOnlineStore V) (key other : TableKey) (entity e : Text) (value : Option V)
      → find (if key_eq key other then put (table_of key s) entity value else table_of other s) e
        ≡ (if key_eq key other && text_eq entity e then some value else find (table_of other s) e)
  cell-put s key other entity e value =
      ground (arith, key_eq_iff key other, find-put (table_of key s) entity value e)

  -- The entry of a table after a Set.
  pub cell-set :
      (s : LocalOnlineStore V) (key other : TableKey) (entity e : Text) (value : Option V)
      → find (table_of other (set key entity value s).1) e
        ≡ (if key_eq key other && text_eq entity e then some value else find (table_of other s) e)
  cell-set s key other entity e value = rw (set_lem s key entity value) (
      rw (table_of-put s key (put (table_of key s) entity value) other)
        (cell-put s key other entity e value))

  get_of_cell :
      (s : LocalOnlineStore V) (key : TableKey) (entity : Text)
      → get key entity s ≡ elim (find (table_of key s) entity) [
        | none ↦ err (entity_not_found entity)
        | some value ↦ ok value
      ]
  unfolding get
  get_of_cell s key entity = refl

  -- After a Set of a table, a Get of the same entity from the same table returns the value, and every
  -- other Get answers as before.
  pub get-set :
      (s : LocalOnlineStore V) (key other : TableKey) (entity e : Text) (value : Option V)
      → get other e (set key entity value s).1
        ≡ (if key_eq key other && text_eq entity e then ok value else get other e s)
  get-set s key other entity e value =
      rw (get_of_cell (set key entity value s).1 other e, get_of_cell s other e)
        (rw (cell-set s key other entity e value) (ground arith))

  pub create_table-fresh :
      (s : LocalOnlineStore V) (key : TableKey)
      → find s key ≡ none
      → create_table key s ≡ (ok key, put s key [])
  unfolding create_table
  create_table-fresh s key fresh = rw (fresh, create_table) refl

  pub create_table-taken :
      (s : LocalOnlineStore V) (key : TableKey) (t : LocalOnlineTable V)
      → find s key ≡ some t
      → create_table key s ≡ (err (table_already_exists key), s)
  unfolding create_table
  create_table-taken s key t there = rw (there, create_table) refl

  get_table-found :
      (s : LocalOnlineStore V) (key : TableKey) (t : LocalOnlineTable V)
      → find s key ≡ some t
      → get_table key s ≡ ok key
  unfolding get_table
  get_table-found s key t there = rw (there, get_table) refl

  get-empty :
      (s : LocalOnlineStore V) (key : TableKey) (entity : Text)
      → find s key ≡ some []
      → get key entity s ≡ err (entity_not_found entity)
  unfolding get table_of find
  get-empty s key entity there = rw (there, get, table_of) refl

  find-put_same :
      (s : LocalOnlineStore V) (key : TableKey) (t : LocalOnlineTable V)
      → find (put s key t) key ≡ some t
  find-put_same s key t = ground (arith, find-put s key t key, key_eq_iff key key)

  -- Where no table stands under the key, CreateTable makes an empty one that GetTable finds, and a
  -- second CreateTable under the key is refused and changes nothing.
  pub create_table_twice :
      (s : LocalOnlineStore V) (key : TableKey) (entity : Text)
      → find s key ≡ none
      → let after = (create_table key s).1 in
        ((create_table key s).0 ≡ ok key)
        × (get_table key after ≡ ok key)
        × (get key entity after ≡ err (entity_not_found entity))
        × (create_table key after ≡ (err (table_already_exists key), after))
  create_table_twice s key entity fresh =
      let made = find-put_same s key [] in
      rw (create_table-fresh s key fresh) (
        refl,
        get_table-found (put s key []) key [] made,
        get-empty (put s key []) key entity made,
        create_table-taken (put s key []) key [] made,
      )
