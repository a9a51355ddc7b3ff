-- ===== src/Metadata/Samples.antt =====
-- A small store and the lemma that shows a concrete store well keyed and intact.
use featureform.Common.{◌≡◌, ◌↔◌, none, some, List, [], ◌∷◌, In, All, All-In, find, find-In, Map}
use featureform.Text.{bytes}
use featureform.Metadata.Types.{
  ResourceId, ResourceStatus, ready, id_keys, user, provider, entity, source, source_variant,
}
use featureform.Metadata.Messages.{
  Group, FeatureVariant, SourceVariant, Consumer, User, Provider, transformation,
}
use featureform.Metadata.Resource.{
  Resource, resource_id, user_resource, provider_resource, entity_resource, source_resource,
  source_variant_resource,
}
use featureform.Metadata.Server.Graph.{IsWellKeyed, IsIntact, IsBacked}

pub IsWellKeyed-entries :
    (m : Map ResourceId Resource) → All (λ e. resource_id e.1 ≡ e.0) m → IsWellKeyed (find m)
IsWellKeyed-entries m all k r h = All-In (λ e. resource_id e.1 ≡ e.0) m (k, r) all (find-In m k r h)

pub IsIntact-entries :
    (m : Map ResourceId Resource) → All (λ e. IsBacked (find m) e.1) m → IsIntact (find m)
IsIntact-entries m all k r h = All-In (λ e. IsBacked (find m) e.1) m (k, r) all (find-In m k r h)

abbrev pub a_user : User
a_user = record {
  name = bytes "ana";
  status = none;
  features = [];
  labels = [];
  trainingsets = [];
  sources = [];
}

abbrev pub a_provider : Provider
a_provider = record {
  name = bytes "redis";
  description = [];
  type = bytes "REDIS_ONLINE";
  software = [];
  team = [];
  serialized_config = [];
  status = none;
  sources = [];
  features = [];
  trainingsets = [];
  labels = [];
}

abbrev pub an_entity : Consumer
an_entity = record {
  name = bytes "customer";
  description = [];
  status = none;
  features = [];
  labels = [];
  trainingsets = [];
}

abbrev pub a_source : Group
a_source = record {
  name = bytes "log";
  status = none;
  default_variant = bytes "v1";
  variants = bytes "v1" ∷ [];
}

abbrev pub a_source_variant : SourceVariant
a_source_variant = record {
  name = bytes "log";
  variant = bytes "v1";
  definition = some (transformation (bytes "SELECT 1") []);
  owner = bytes "ana";
  description = [];
  provider = bytes "redis";
  created = none;
  status = none;
  table = [];
  trainingsets = [];
  features = [];
  labels = [];
  last_updated = none;
  schedule = [];
}

abbrev pub a_feature_variant : FeatureVariant
a_feature_variant = record {
  name = bytes "spend";
  variant = bytes "v2";
  source = some (record { name = bytes "log"; variant = bytes "v1" });
  type = bytes "int";
  entity = bytes "customer";
  created = none;
  owner = bytes "ana";
  description = [];
  provider = bytes "redis";
  status = none;
  trainingsets = [];
  columns = none;
  last_updated = none;
  schedule = [];
}

abbrev pub a_status : ResourceStatus
a_status = record { status = ready; error_message = [] }

abbrev pub store : Map ResourceId Resource
store =
    (record { name = bytes "ana"; variant = []; type = user }, user_resource a_user)
    ∷ (record { name = bytes "redis"; variant = []; type = provider }, provider_resource a_provider)
    ∷ (record { name = bytes "customer"; variant = []; type = entity }, entity_resource an_entity)
    ∷ (record { name = bytes "log"; variant = []; type = source }, source_resource a_source)
    ∷ (
      record { name = bytes "log"; variant = bytes "v1"; type = source_variant },
      source_variant_resource a_source_variant,
    )
    ∷ []

-- A `range` in the order of the entries.
abbrev pub in_order : List Resource → List Resource
in_order rs = rs

pub in_order_iff : (r : Resource) (rs : List Resource) → In r (in_order rs) ↔ In r rs
in_order_iff r rs = (λ i. i, λ i. i)
