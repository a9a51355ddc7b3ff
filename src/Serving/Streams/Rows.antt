-- ===== src/Serving/Streams/Rows.antt =====
-- newserving/serving.go: which rows a stream of training data carries.
use featureform.Common.{
  ℕ, zero, suc, ◌+◌, ◌≡◌, refl, sym, ap, subst, ◌∙◌, ◌++◌, inl, inr, Result-cases, Bool, true,
  false, some, List, [], ◌∷◌, Result, ok, err, length, get_elem?, arith, ◌==◌,
}
use featureform.Provider.Offline.Types as Offline
use featureform.Provider.Offline.Store.{TrainingRow}
use featureform.Provider.Offline.Iterator.{
  Iterator, next, current, new_iterator, drop, drop-get, drop-length, next-inside, current-inside,
}
use featureform.Text.{Text}
use featureform.Serving.Values.{GoValue, Row, InvalidValue, serialized_row}
use featureform.Serving.Streams.{Send, Error, invalid, stream, serve_row, training_data_loop}

-- What it is to serve rows of a training set behind those that are sent: how that ends, and what is
-- sent then.
pub data Serves (send : Send)
    : List Row → List (TrainingRow GoValue) → Result Error (Unit {0}) × List Row → Type 0 where
  all_sent : {sent : List Row} → Serves send sent [] (ok tt, sent)
  row_sent :
      {sent : List Row} {r : TrainingRow GoValue} {rs : List (TrainingRow GoValue)} {row : Row}
      {outcome : Result Error (Unit {0}) × List Row}
      → serialized_row r.features r.label ≡ ok row
      → send sent row ≡ ok tt
      → Serves send (sent ++ (row ∷ [])) rs outcome
      → Serves send sent (r ∷ rs) outcome
  row_invalid :
      {sent : List Row} {r : TrainingRow GoValue} {rs : List (TrainingRow GoValue)}
      {e : InvalidValue}
      → serialized_row r.features r.label ≡ err e
      → Serves send sent (r ∷ rs) (err (invalid e), sent)
  row_refused :
      {sent : List Row} {r : TrainingRow GoValue} {rs : List (TrainingRow GoValue)} {row : Row}
      {e : Text}
      → serialized_row r.features r.label ≡ ok row
      → send sent row ≡ err e
      → Serves send sent (r ∷ rs) (err (stream e), sent)

-- The rows of a training set sent one after the other, up to the first that cannot be served.
unfoldable served :
    Send → List Row → List (TrainingRow GoValue) → Result Error (Unit {0}) × List Row
served send sent [] = (ok tt, sent)
served send sent (r ∷ rs) =
    let on = λ (sent' : List Row). served send sent' rs in
    elim (serve_row send sent (ok r)) [ err e ↦ (err e, sent) | ok sent' ↦ on sent' ]

serve_row-invalid :
    (send : Send) (sent : List Row) (r : TrainingRow GoValue) (e : InvalidValue)
    → serialized_row r.features r.label ≡ err e
    → serve_row send sent (ok r) ≡ err (invalid e)
unfolding serve_row
serve_row-invalid send sent r e bad = rw (bad, serve_row) refl

serve_row-refused :
    (send : Send) (sent : List Row) (r : TrainingRow GoValue) (row : Row) (e : Text)
    → serialized_row r.features r.label ≡ ok row
    → send sent row ≡ err e
    → serve_row send sent (ok r) ≡ err (stream e)
unfolding serve_row
serve_row-refused send sent r row e good refused = rw (good, refused, serve_row) refl

serve_row-sent :
    (send : Send) (sent : List Row) (r : TrainingRow GoValue) (row : Row)
    → serialized_row r.features r.label ≡ ok row
    → send sent row ≡ ok tt
    → serve_row send sent (ok r) ≡ ok (sent ++ (row ∷ []))
unfolding serve_row
serve_row-sent send sent r row good taken = rw (good, taken, serve_row) refl

served-Serves :
    (send : Send) (rs : List (TrainingRow GoValue)) (sent : List Row)
    → Serves send sent rs (served send sent rs)
unfolding served
served-Serves send [] sent = all_sent
served-Serves send (r ∷ rs) sent = elim (Result-cases (serialized_row r.features r.label)) [
  | inr (e, bad) ↦ rw (serve_row-invalid send sent r e bad, served) (row_invalid bad)
  | inl (row, good) ↦ elim (Result-cases (send sent row)) [
    | inr (e, refused) ↦
        rw (serve_row-refused send sent r row e good refused, served) (row_refused good refused)
    | inl (_, taken) ↦
        rw (serve_row-sent send sent r row good taken, served)
          (row_sent good taken (served-Serves send rs (sent ++ (row ∷ []))))
  ]
]

next-end :
    {A : Type 0} (xs : List A) (i : ℕ)
    → (i == length xs) ≡ true
    → (next (record { elements = xs; idx = i })).0 ≡ false
unfolding next
next-end xs i at_end = rw at_end refl

module _ (send : Send) where
  -- One turn of the loop, by what `Next` returned.
  turn :
      List Row
      → Result Offline.Error (TrainingRow GoValue)
      → (List Row → Result Error (Unit {0}) × List Row)
      → Bool
      → Result Error (Unit {0}) × List Row
  turn sent r on false = (ok tt, sent)
  turn sent r on true = elim (serve_row send sent r) [ err e ↦ (err e, sent) | ok sent' ↦ on sent' ]

  loop-turn :
      (fuel : ℕ) (sent : List Row) (it : Iterator (TrainingRow GoValue))
      → training_data_loop send (suc fuel) sent it
        ≡ turn sent
            (current (next it).1)
            (λ sent'. training_data_loop send fuel sent' (next it).1)
            (next it).0
  unfolding training_data_loop turn
  loop-turn fuel sent it = on_more (next it).0
    where
      on_more :
          (more : Bool)
          → elim more [
            | false ↦ (ok tt, sent)
            | true ↦ elim (serve_row send sent (current (next it).1)) [
              | err e ↦ (err e, sent)
              | ok sent' ↦ training_data_loop send fuel sent' (next it).1
            ]
          ]
            ≡ turn sent
                (current (next it).1)
                (λ sent'. training_data_loop send fuel sent' (next it).1)
                more
      on_more true = refl
      on_more false = refl

  loop-end :
      (fuel : ℕ) (xs : List (TrainingRow GoValue)) (i : ℕ) (sent : List Row)
      → (i == length xs) ≡ true
      → training_data_loop send (suc fuel) sent (record { elements = xs; idx = i }) ≡ (ok tt, sent)
  unfolding turn
  loop-end fuel xs i sent at_end =
      loop-turn fuel sent (record { elements = xs; idx = i }) ∙ rw (next-end xs i at_end) refl

  loop-row :
      (fuel : ℕ) (xs : List (TrainingRow GoValue)) (i : ℕ) (sent : List Row)
      (x : TrainingRow GoValue) (rest : List (TrainingRow GoValue))
      → (i == length xs) ≡ false
      → get_elem? xs i ≡ some x
      → ((sent' : List Row)
          → training_data_loop send fuel sent' (record { elements = xs; idx = suc i })
            ≡ served send sent' rest)
      → training_data_loop send (suc fuel) sent (record { elements = xs; idx = i })
        ≡ served send sent (x ∷ rest)
  unfolding turn served
  loop-row fuel xs i sent x rest inside here later =
      loop-turn fuel sent (record { elements = xs; idx = i })
      ∙ rw (next-inside xs i inside)
          (rw (current-inside xs i x here) (on_row (serve_row send sent (ok x))))
    where
      on_row :
          (r : Result Error (List Row))
          → elim r [
            | err e ↦ (err e, sent)
            | ok sent' ↦ training_data_loop send fuel sent' (record { elements = xs; idx = suc i })
          ]
            ≡ elim r [ err e ↦ (err e, sent) | ok sent' ↦ served send sent' rest ]
      on_row (err e) = refl
      on_row (ok sent') = later sent'

  loop-from :
      (k : ℕ) (xs : List (TrainingRow GoValue)) (i : ℕ) (sent : List Row)
      → i + k ≡ length xs
      → training_data_loop send (suc k) sent (record { elements = xs; idx = i })
        ≡ served send sent (drop i xs)
  unfolding served
  loop-from zero xs i sent h =
      loop-end zero xs i sent (ground (arith, h))
      ∙ rw i-is-length (sym (ap (served send sent) (drop-length xs)))
    where
      i-is-length : i ≡ length xs
      i-is-length = omega (arith, h)
  loop-from (suc k) xs i sent h =
      let (x, here, rest) = drop-get xs i (omega (arith, h)) in
      loop-row (suc k) xs i sent x (drop (suc i) xs) (ground (arith, h)) here
        (λ sent'. loop-from k xs (suc i) sent' (omega (arith, h)))
      ∙ ap (served send sent) (sym rest)

  -- The loop of `TrainingData` serializes the rows of the training set in order and sends each of
  -- them once, until one cannot be serialized or sent: then it ends with that error, the rows before
  -- it being sent. Otherwise it ends without an error behind the last row. It never reads out of
  -- range, and as many turns as there are rows, and one, are enough.
  pub training_data_loop-served :
      (rows : List (TrainingRow GoValue))
      → Serves send [] rows (training_data_loop send (suc (length rows)) [] (new_iterator rows))
  unfolding drop
  training_data_loop-served rows =
      subst (Serves send [] rows) (sym (loop-from (length rows) rows 0 [] (omega arith)))
        (served-Serves send rows [])
