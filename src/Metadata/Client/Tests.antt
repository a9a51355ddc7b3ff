-- ===== src/Metadata/Client/Tests.antt =====
-- Runs of metadata/client.go's lists and lookups on a small store.
use featureform.Common.{◌≡◌, refl, [], ◌∷◌, ok, err, find}
use featureform.Text.{bytes, text_eq}
use featureform.Metadata.Types.{id_eq, type_eq, type_code, not_found, user}
use featureform.Metadata.Handlers.{generic_get, generic_list}
use featureform.Metadata.Handlers.Reads
use featureform.Metadata.Lookup.Local
use featureform.Metadata.Lookup.Local.{local_lookup}
use featureform.Metadata.Client
use featureform.Metadata.Client.Lists
use featureform.Metadata.Client.Fetches
use featureform.Metadata.Samples.{store, a_user, a_source, a_source_variant}

users_listed : Lists.list_users local_lookup store ≡ ok (a_user ∷ [])
unfolding Lists.list_users Lists.parse_user_stream Lists.parse_stream Lists.all_of
    Client.receive_all Client.sends Reads.list_users generic_list Local.list_for_type type_eq
    type_code
users_listed = refl

source_found : Lists.get_source local_lookup (bytes "log") store ≡ ok a_source
unfolding Lists.get_source Lists.get_sources Lists.parse_source_stream Lists.parse_stream
    Lists.all_of Lists.first Client.receive_all Client.sends Reads.get_sources generic_get
    Local.lookup find id_eq text_eq type_eq type_code
source_found = refl

user_missing :
    Lists.get_user local_lookup (bytes "bob") store
    ≡ err (not_found (record { name = bytes "bob"; variant = []; type = user }))
unfolding Lists.get_user Lists.get_users Lists.parse_user_stream Lists.parse_stream
    Client.receive_all Client.sends Reads.get_users generic_get Local.lookup find id_eq text_eq
    type_eq type_code
user_missing = refl

variants_fetched :
    Fetches.source_fetch_variants local_lookup a_source store ≡ ok (a_source_variant ∷ [])
unfolding Fetches.source_fetch_variants Fetches.name_variants Client.get_source_variants
    Client.receive_all Client.sends Reads.get_source_variants generic_get Local.lookup find id_eq
    text_eq type_eq type_code
variants_fetched = refl
