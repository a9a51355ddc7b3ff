-- ===== src/Metadata/Names.antt =====
-- metadata/metadata.go: `resourceNamedSafely` and its lists of banned strings.
pub mod Safety
use featureform.Common.{◌≡◌, refl, Bool, List, [], ◌∷◌, if◌then◌else◌, Result, ok, err, ◌>>=◌, ◌>>◌}
use featureform.Text.{Text, bytes, has_prefix, has_suffix, contains}
use featureform.Metadata.Types.{
  ResourceId, Error, NameRule, banned_string, banned_prefix, banned_suffix, in_name, in_variant,
  unsafe_name,
}

abbrev pub banned_strings : List Text
banned_strings = bytes "__" ∷ []

abbrev pub banned_prefixes : List Text
banned_prefixes = bytes "_" ∷ []

abbrev pub banned_suffixes : List Text
banned_suffixes = bytes "_" ∷ []

-- One of the three loops: `test` is applied to the name and then to the variant. The message of
-- every error quotes the name, also where the variant is at fault.
unfoldable pub check_banned :
    (Text → Text → Bool) → NameRule → ResourceId → List Text → Result Error (Unit {0})
check_banned test rule id [] = ok tt
check_banned test rule id (substr ∷ rest) =
    let next = check_banned test rule id rest in
    if test id.name substr
    then err (unsafe_name in_name rule id.name)
    else if test id.variant substr
    then err (unsafe_name in_variant rule id.name)
    else next

unfoldable pub resource_named_safely : ResourceId → Result Error (Unit {0})
unfolding check_banned
resource_named_safely id = do
  check_banned contains banned_string id banned_strings
  check_banned has_prefix banned_prefix id banned_prefixes
  check_banned has_suffix banned_suffix id banned_suffixes
