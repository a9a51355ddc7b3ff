-- ===== src/Api/Tests.antt =====
-- Runs of the gateway of api/api.go over a small store.
use featureform.Common.{◌≡◌, [], ◌∷◌, ok, map}
use featureform.Text.{Text, bytes}
use featureform.Metadata.Types.{ResourceId, user}
use featureform.Metadata.Resource.{user_resource}
use featureform.Metadata.Handlers.{generic_get}
use featureform.Metadata.Lookup.Local.{local_lookup}
use featureform.Metadata.Client.{sends}
use featureform.Metadata.Samples.{store, a_user}
use featureform.Api.{returned, still_runs, get_loop, send_loop}
use featureform.Api.Forwarded.{get_loop-generic_get, send_loop-runs, answer_of}

abbrev user_id : Text → ResourceId
user_id name = record { name = name; variant = []; type = user }

-- The second user is not there.
get_loop-generic_get_example :
    get_loop
      (answer_of local_lookup store user_id)
      sends
      []
      (map ok (bytes "ana" ∷ bytes "bob" ∷ []))
    ≡ (
      returned
          (generic_get local_lookup sends store []
            (map (λ n. ok (user_id n)) (bytes "ana" ∷ bytes "bob" ∷ []))).0,
      (generic_get local_lookup sends store []
          (map (λ n. ok (user_id n)) (bytes "ana" ∷ bytes "bob" ∷ []))).1,
    )
get_loop-generic_get_example =
    get_loop-generic_get local_lookup sends store user_id [] (bytes "ana" ∷ bytes "bob" ∷ [])

listed_for_long : (send_loop sends (user_resource a_user) [] 1000).0 ≡ still_runs
listed_for_long = send_loop-runs (user_resource a_user) [] 1000
