-- ===== src/Api/Forwarded.antt =====
-- What a client of api/api.go receives, against what the metadata service sends to a client of its
-- own.
use featureform.Common.{
  ◌≡◌, ◌∙◌, ap, refl, ℕ, zero, suc, inl, inr, Result-cases, List, [], ◌∷◌, ◌++◌, Result, ok, err,
  map,
}
use featureform.Metadata.Types.{ResourceId, Error}
use featureform.Metadata.Resource.{Resource}
use featureform.Metadata.Lookup.{ResourceLookup}
use featureform.Metadata.Handlers.{generic_get}
use featureform.Metadata.Client.{sends}
use featureform.Api.{returned, still_runs, recv, get_loop, send_loop, Send, Sent}

module _ {A : Type 0} (answer : A → Sent) (send : Send) (sent : List Resource) (a : A)
    (requests : List (Result Error A)) where
  get_loop-refused :
      (e : Error)
      → recv (answer a) ≡ err e
      → get_loop answer send sent (ok a ∷ requests) ≡ (returned (err e), sent)
  unfolding get_loop
  get_loop-refused e h = rw (h, get_loop) refl

  get_loop-dropped :
      (r : Resource) (e : Error)
      → recv (answer a) ≡ ok r
      → send sent r ≡ err e
      → get_loop answer send sent (ok a ∷ requests) ≡ (returned (err e), sent)
  unfolding get_loop
  get_loop-dropped r e h k = rw (h, k, get_loop) refl

  get_loop-passed :
      (r : Resource)
      → recv (answer a) ≡ ok r
      → send sent r ≡ ok tt
      → get_loop answer send sent (ok a ∷ requests) ≡ get_loop answer send (sent ++ r ∷ []) requests
  unfolding get_loop
  get_loop-passed r h k = rw (h, k, get_loop) refl

module _ {W : Type 0} (L : ResourceLookup W) (w : W) (id : ResourceId) where
  recv-found :
      (r : Resource) → L.lookup id w ≡ ok r → recv (generic_get L sends w [] (ok id ∷ [])) ≡ ok r
  unfolding recv generic_get sends
  recv-found r h = rw (h, recv) refl

  generic_get-missing :
      (e : Error) → L.lookup id w ≡ err e → generic_get L sends w [] (ok id ∷ []) ≡ (err e, [])
  unfolding generic_get
  generic_get-missing e h = rw (h, generic_get) refl

  recv-missing :
      (e : Error) → L.lookup id w ≡ err e → recv (generic_get L sends w [] (ok id ∷ [])) ≡ err e
  unfolding recv
  recv-missing e h = ap recv (generic_get-missing e h)

-- The service's stream on one request of its own.
abbrev pub answer_of :
    {A : Type 0} {W : Type 0} → ResourceLookup W → W → (A → ResourceId) → A → Sent
answer_of L w id_of a = generic_get L sends w [] (ok (id_of a) ∷ [])

-- The loop of a `Get...` RPC sends its client what `genericGet` would send it, and ends as it does,
-- the client's requests being received without error.
pub get_loop-generic_get :
    {A : Type 0} {W : Type 0} (L : ResourceLookup W) (send : Send) (w : W) (id_of : A → ResourceId)
    (sent : List Resource) (requests : List A)
    → get_loop (answer_of L w id_of) send sent (map ok requests) ≡ (
      returned (generic_get L send w sent (map (λ a. ok (id_of a)) requests)).0,
      (generic_get L send w sent (map (λ a. ok (id_of a)) requests)).1,
    )
unfolding get_loop generic_get
get_loop-generic_get L send w id_of sent [] = refl
get_loop-generic_get L send w id_of sent (a ∷ requests) =
    elim (Result-cases (L.lookup (id_of a) w)) [
      | inr (e, found) ↦
          get_loop-refused (answer_of L w id_of) send sent a (map ok requests) e
            (recv-missing L w (id_of a) e found)
          ∙ rw found refl
      | inl (r, found) ↦ elim (Result-cases (send sent r)) [
        | inr (e, answered) ↦
            get_loop-dropped (answer_of L w id_of) send sent a (map ok requests) r e
              (recv-found L w (id_of a) r found) answered
            ∙ rw (found, answered) refl
        | inl (_, answered) ↦
            get_loop-passed (answer_of L w id_of) send sent a (map ok requests) r
              (recv-found L w (id_of a) r found) answered
            ∙ rw (found, answered) (get_loop-generic_get L send w id_of (sent ++ r ∷ []) requests)
      ]
    ]

-- `ListFeatures` to a client that takes everything never returns, however long it runs.
pub send_loop-runs :
    (r : Resource) (sent : List Resource) (fuel : ℕ) → (send_loop sends r sent fuel).0 ≡ still_runs
unfolding send_loop sends
send_loop-runs r sent zero = refl
send_loop-runs r sent (suc fuel) = send_loop-runs r (sent ++ r ∷ []) fuel
