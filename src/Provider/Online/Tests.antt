-- ===== src/Provider/Online/Tests.antt =====
-- An online store with one table.
use featureform.Common.{ℕ, ◌≡◌, some, [], ◌∷◌, ok, if◌then◌else◌, ◌&&◌}
use featureform.Text.{bytes, text_eq}
use featureform.Provider.Online.{TableKey, key_keys, key_eq, LocalOnlineStore, set, get}
use featureform.Provider.Online.Laws.{get-set}

abbrev spend : TableKey
spend = record { feature = bytes "spend"; variant = bytes "v1" }

abbrev a_store : LocalOnlineStore ℕ
a_store = (spend, (bytes "ana", some 3) ∷ []) ∷ []

get-set_example : get spend (bytes "ana") (set spend (bytes "ana") (some 5) a_store).1 ≡ (
    if key_eq spend spend && text_eq (bytes "ana") (bytes "ana")
    then ok (some 5)
    else get spend (bytes "ana") a_store)
get-set_example = get-set a_store spend spend (bytes "ana") (bytes "ana") (some 5)
