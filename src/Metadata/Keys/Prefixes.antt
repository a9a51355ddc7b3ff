-- ===== src/Metadata/Keys/Prefixes.antt =====
-- Which key is a prefix of which: what etcd's prefix queries can find.
use featureform.Common.{
  ◌≡◌, ◌≢◌, refl, sym, ◌↔◌, true, false, [], ◌∷◌, ◌++◌, arith, ap, ◌∙◌, Bool-cases, inl, inr,
}
use featureform.Text.{Text, bytes, has_prefix}
use featureform.Metadata.Types.{ResourceId, ResourceType, type_name, feature, unknown}
use featureform.Metadata.Names.Safety.{IsSafe, IsDelimited, IsSafe→IsDelimited}
use featureform.Metadata.Keys.TypeNames.{
  IsKnown, type_value, type_value-type_name, type_name-IsDelimited,
}
use featureform.Metadata.Keys.{create_key, get_job_key}

pub has_prefix_refl : (s : Text) → has_prefix s s ≡ true
unfolding has_prefix
has_prefix_refl [] = refl
has_prefix_refl (c ∷ s) = ground (arith, has_prefix_refl s)

pub has_prefix_antisymm : (s t : Text) → has_prefix s t ≡ true → has_prefix t s ≡ true → s ≡ t
unfolding has_prefix
has_prefix_antisymm [] [] p q = refl
has_prefix_antisymm [] (d ∷ t) p q = cc
has_prefix_antisymm (c ∷ s) [] p q = cc
has_prefix_antisymm (c ∷ s) (d ∷ t) p q = ground (arith, has_prefix_antisymm s t)

has_prefix-append : (s t u : Text) → has_prefix (s ++ t) (s ++ u) ≡ has_prefix t u
unfolding has_prefix
has_prefix-append [] t u = refl
has_prefix-append (c ∷ s) t u = ground (arith, has_prefix-append s t u)

-- The first separator of a key ends its first delimited part.
has_prefix-field :
    (a b x y : Text)
    → IsDelimited a
    → IsDelimited b
    → has_prefix (b ++ (bytes "__" ++ y)) (a ++ (bytes "__" ++ x)) ≡ true
    → (a ≡ b) × (has_prefix y x ≡ true)
unfolding has_prefix
has_prefix-field [] [] x y da db h = (refl, ground arith)
has_prefix-field [] (d ∷ []) x y da db h = absurd (ground arith)
has_prefix-field [] (d ∷ e ∷ b) x y da db h = absurd (ground arith)
has_prefix-field (c ∷ []) [] x y da db h = absurd (ground arith)
has_prefix-field (c ∷ e ∷ a) [] x y da db h = absurd (ground arith)
has_prefix-field (c ∷ []) (d ∷ []) x y da db h = ground (arith, has_prefix-field [] [] x y)
has_prefix-field (c ∷ []) (d ∷ f ∷ b) x y da db h = ground (arith, has_prefix-field [] (f ∷ b) x y)
has_prefix-field (c ∷ e ∷ a) (d ∷ []) x y da db h = ground (arith, has_prefix-field (e ∷ a) [] x y)
has_prefix-field (c ∷ e ∷ a) (d ∷ f ∷ b) x y da db h =
    ground (arith, has_prefix-field (e ∷ a) (f ∷ b) x y)

-- A resource of a declared type whose name the service accepts.
pub record IsWellNamed (id : ResourceId) : Type 0 where
  pub known : IsKnown id.type
  pub name : IsSafe id.name

-- `a` has the type and the name of `b`, and its variant begins with that of `b`.
pub record Extends (a b : ResourceId) : Type 0 where
  pub type : b.type ≡ a.type
  pub name : b.name ≡ a.name
  pub variant : has_prefix a.variant b.variant ≡ true

type_name_injective :
    (t u : ResourceType) → IsKnown t → IsKnown u → type_name t ≡ type_name u → t ≡ u
type_name_injective t u kt ku e =
    sym (type_value-type_name t kt) ∙ ap type_value e ∙ type_value-type_name u ku

module _ (a b : ResourceId) (wa : IsWellNamed a) (wb : IsWellNamed b) where
  key-Extends : has_prefix (create_key a) (create_key b) ≡ true → Extends a b
  unfolding create_key
  key-Extends h =
      let (types, rest) =
        has_prefix-field (type_name b.type) (type_name a.type) (b.name ++ (bytes "__" ++ b.variant))
          (a.name ++ (bytes "__" ++ a.variant)) (type_name-IsDelimited b.type)
          (type_name-IsDelimited a.type) h in
      let (names, variants) =
        has_prefix-field b.name a.name b.variant a.variant (IsSafe→IsDelimited b.name wb.name)
          (IsSafe→IsDelimited a.name wa.name) rest in
      record {
        type = type_name_injective b.type a.type wb.known wa.known types;
        name = names;
        variant = variants;
      }

  Extends-key : Extends a b → has_prefix (create_key a) (create_key b) ≡ true
  unfolding create_key has_prefix
  Extends-key x = simp (x.type, x.name, has_prefix-append) x.variant

  -- For ids of declared types with safe names, etcd's key of `b` is a prefix of the key of `a` exactly when the two have
  -- the same type and name and the variant of `b` is a prefix of that of `a`.
  pub create_key-prefix_iff : (has_prefix (create_key a) (create_key b) ≡ true) ↔ Extends a b
  create_key-prefix_iff = (key-Extends, Extends-key)

-- No two ids of declared types with safe names share a key.
pub create_key_injective :
    (a b : ResourceId) → IsWellNamed a → IsWellNamed b → create_key a ≡ create_key b → a ≡ b
create_key_injective a b wa wb e =
    let ab = key-Extends a b wa wb (rw e (has_prefix_refl (create_key b))) in
    let ba = key-Extends b a wb wa (rw e (has_prefix_refl (create_key b))) in
    ground (arith, ab.type, ab.name, has_prefix_antisymm a.variant b.variant ab.variant ba.variant)

type_name_not_job : (t : ResourceType) → IsKnown t → bytes "JOB" ≢ type_name t
unfolding type_name
type_name_not_job (unknown n) k = absurd k
type_name_not_job feature k = ground arith
type_name_not_job _ k = ground arith

-- The key of a job is never a prefix of the key of a resource of a declared type, so the queries for
-- jobs find no resource.
pub job_key-ne-resource :
    (a b : ResourceId) → IsKnown a.type → has_prefix (create_key a) (get_job_key b) ≡ false
unfolding get_job_key create_key
job_key-ne-resource a b k = elim (Bool-cases (has_prefix (create_key a) (get_job_key b))) [
  | inr no_prefix ↦ no_prefix
  | inl is_prefix ↦ absurd (
      type_name_not_job a.type k
        (has_prefix-field (bytes "JOB") (type_name a.type) (create_key b)
          (a.name ++ (bytes "__" ++ a.variant)) (ground arith) (type_name-IsDelimited a.type)
          is_prefix).0)
]

-- Two jobs share a key only if they are for the same resource.
pub get_job_key_injective :
    (a b : ResourceId) → IsWellNamed a → IsWellNamed b → get_job_key a ≡ get_job_key b → a ≡ b
unfolding get_job_key
get_job_key_injective a b wa wb e = create_key_injective a b wa wb (ground arith)
