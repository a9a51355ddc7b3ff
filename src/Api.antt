-- ===== src/Api.antt =====
-- api/api.go: the gateway's RPCs on metadata, each over the handlers that it forwards to.
pub mod Forwarded
pub mod Tests
use featureform.Common.{
  ℕ, zero, suc, Option, none, some, List, [], ◌∷◌, ◌++◌, Result, ok, err, Action,
}
use featureform.Text.{Text, bytes}
use featureform.Metadata.Types.{ResourceId, NameVariant, Error, nil_dereference, failure}
use featureform.Metadata.Messages.{
  Timestamp, FeatureVariant, LabelVariant, TrainingSetVariant, Consumer, User, Provider,
}
use featureform.Metadata.Resource.{Resource}
use featureform.Metadata.Lookup.{ResourceLookup}
use featureform.Metadata.Handlers
use featureform.Metadata.Handlers.Reads
use featureform.Metadata.Client
use featureform.Metadata.Client.{sends}

-- How a handler ends: it returns, or `Logger.Fatalf` ends the process.
pub data Ended : Type 0 where
  returned : Result Error (Unit {0}) → Ended
  exits : Error → Ended
  -- The fuel of the model ran out: no code of the program.
  still_runs : Ended

abbrev pub Send : Type 0
Send = List Resource → Resource → Result Error (Unit {0})

abbrev pub Sent : Type 0
Sent = Result Error (Unit {0}) × List Resource

-- The first `Recv` on the stream of the service: what it sent, or how it ended.
unfoldable pub recv : Sent → Result Error Resource
recv (ended, r ∷ sent) = ok r
recv (err e, []) = err e
recv (ok u, []) = err (failure (bytes "EOF"))

-- The loop of a `Get...` RPC. Each request opens a stream of the service, whose answer to it is
-- `answer`. The second part of the result is what was sent.
unfoldable pub get_loop :
    {A : Type 0} → (A → Sent) → Send → List Resource → List (Result Error A) → Ended × List Resource
get_loop answer send sent [] = (returned (ok tt), sent)
get_loop answer send sent (err e ∷ requests) = (exits e, sent)
get_loop answer send sent (ok a ∷ requests) = elim (recv (answer a)) [
  | err e ↦ (returned (err e), sent)
  | ok r ↦ elim (send sent r) [
    | err e ↦ (returned (err e), sent)
    | ok u ↦ get_loop answer send (sent ++ r ∷ []) requests
  ]
]

-- The loop of `ListFeatures`, which sends one message until an error; the number bounds its rounds.
unfoldable pub send_loop : Send → Resource → List Resource → ℕ → Ended × List Resource
send_loop send r sent zero = (still_runs, sent)
send_loop send r sent (suc fuel) = elim (send sent r) [
  | err e ↦ (returned (err e), sent)
  | ok u ↦ send_loop send r (sent ++ r ∷ []) fuel
]

module _ {W : Type 0} (L : ResourceLookup W) (send : Send) (w : W) where
  -- `GetUsers`
  unfoldable get_users : List (Result Error Text) → Ended × List Resource
  get_users = get_loop (λ name. Reads.get_users L sends w (ok name ∷ [])) send []

  -- `GetFeatures`
  unfoldable get_features : List (Result Error Text) → Ended × List Resource
  get_features = get_loop (λ name. Reads.get_features L sends w (ok name ∷ [])) send []

  -- `GetFeatureVariants`
  unfoldable get_feature_variants : List (Result Error NameVariant) → Ended × List Resource
  get_feature_variants = get_loop (λ id. Reads.get_feature_variants L sends w (ok id ∷ [])) send []

  -- `GetLabels`
  unfoldable get_labels : List (Result Error Text) → Ended × List Resource
  get_labels = get_loop (λ name. Reads.get_labels L sends w (ok name ∷ [])) send []

  -- `GetLabelVariants`
  unfoldable get_label_variants : List (Result Error NameVariant) → Ended × List Resource
  get_label_variants = get_loop (λ id. Reads.get_label_variants L sends w (ok id ∷ [])) send []

  -- `GetSources`
  unfoldable get_sources : List (Result Error Text) → Ended × List Resource
  get_sources = get_loop (λ name. Reads.get_sources L sends w (ok name ∷ [])) send []

  -- `GetSourceVariants`
  unfoldable get_source_variants : List (Result Error NameVariant) → Ended × List Resource
  get_source_variants = get_loop (λ id. Reads.get_source_variants L sends w (ok id ∷ [])) send []

  -- `GetTrainingSets`
  unfoldable get_training_sets : List (Result Error Text) → Ended × List Resource
  get_training_sets = get_loop (λ name. Reads.get_training_sets L sends w (ok name ∷ [])) send []

  -- `GetTrainingSetVariants`
  unfoldable get_training_set_variants : List (Result Error NameVariant) → Ended × List Resource
  get_training_set_variants =
      get_loop (λ id. Reads.get_training_set_variants L sends w (ok id ∷ [])) send []

  -- `GetProviders`
  unfoldable get_providers : List (Result Error Text) → Ended × List Resource
  get_providers = get_loop (λ name. Reads.get_providers L sends w (ok name ∷ [])) send []

  -- `GetEntities`
  unfoldable get_entities : List (Result Error Text) → Ended × List Resource
  get_entities = get_loop (λ name. Reads.get_entities L sends w (ok name ∷ [])) send []

  -- `GetModels`
  unfoldable get_models : List (Result Error Text) → Ended × List Resource
  get_models = get_loop (λ name. Reads.get_models L sends w (ok name ∷ [])) send []

  -- `ListFeatures`
  unfoldable pub list_features : ℕ → Ended × List Resource
  list_features fuel = elim (recv (Reads.list_features L sends w)) [
    | err e ↦ (returned (err e), [])
    | ok r ↦ send_loop send r [] fuel
  ]

module _ {W : Type 0} (L : ResourceLookup W) (order : List Resource → List Resource) where
  -- `CreateUser`
  unfoldable create_user : User → Action Error W (Unit {0})
  create_user user = Handlers.create_user L order user

  -- `CreateProvider`
  unfoldable create_provider : Provider → Action Error W (Unit {0})
  create_provider provider = Handlers.create_provider L order provider

  -- `CreateEntity`
  unfoldable create_entity : Consumer → Action Error W (Unit {0})
  create_entity entity = Handlers.create_entity L order entity

  -- `CreateFeatureVariant`
  unfoldable create_feature_variant : Timestamp → FeatureVariant → Action Error W (Unit {0})
  create_feature_variant now feature = Handlers.create_feature_variant L order now feature

  -- `CreateLabelVariant`, with the provider of the label's source.
  unfoldable pub create_label_variant : Timestamp → LabelVariant → Action Error W (Unit {0})
  create_label_variant now label w = elim label.source [
    | none ↦ (err nil_dereference, w)
    | some id ↦ elim (Client.get_source_variant L id w) [
      | err e ↦ (err e, w)
      | ok source ↦
          Handlers.create_label_variant L order now (record label { provider = source.provider }) w
    ]
  ]

  -- `CreateTrainingSetVariant`, with the provider of its label.
  unfoldable create_training_set_variant :
      Timestamp → TrainingSetVariant → Action Error W (Unit {0})
  create_training_set_variant now train w = elim train.label [
    | none ↦ (err nil_dereference, w)
    | some id ↦ elim (Client.get_label_variant L id w) [
      | err e ↦ (err e, w)
      | ok label ↦
          Handlers.create_training_set_variant L order now
            (record train { provider = label.provider }) w
    ]
  ]

  -- `RequestScheduleChange`
  unfoldable request_schedule_change : ResourceId → Text → Action Error W (Unit {0})
  request_schedule_change id schedule = Handlers.request_schedule_change L id schedule
