-- ===== src/Coordinator/Templates.antt =====
-- coordinator/coordinator.go: `templateReplace`, on the bytes of the template. `sanitize` quotes an
-- identifier with a function of pgx: it is a parameter.
pub mod Filled
use featureform.Common.{
  ℕ, zero, suc, ◌+◌, Bool, true, false, ◌||◌, Option, none, some, List, [], ◌∷◌, ◌++◌, Result, ok,
  err, ◌>>=◌, Map, find, if◌then◌else◌, ◌==◌, ltb, ◌&&◌,
}
use featureform.Text.{Text, bytes, has_prefix, text_keys}
use featureform.Coordinator.Services.{Error, no_key_set, template_panic}

-- `strings.SplitN(s, sep, 2)` of a separator of two equal bytes: what is before it and what is
-- after it, where it occurs.
unfoldable pub cut : ℕ → Text → Option (Text × Text)
cut c [] = none
cut c (a ∷ []) = none
cut c (a ∷ b ∷ s) =
    let rest = cut c (b ∷ s) in
    if a == c && b == c
    then some ([], s)
    else elim rest [ none ↦ none | some (before, after) ↦ some (a ∷ before, after) ]

-- `strings.Count(s, sep)` of such a separator, whose occurrences do not overlap.
unfoldable pub count : ℕ → Text → ℕ
count c [] = 0
count c (a ∷ []) = 0
count c (a ∷ b ∷ s) =
    let inside = count c s in
    let later = count c (b ∷ s) in if a == c && b == c then suc inside else later

-- White space of ASCII: of the spaces beyond, `strings.TrimSpace` knows more.
is_space : ℕ → Bool
is_space c = c == 32 || (ltb 8 c && ltb c 14)

-- `strings.TrimSpace`
trim_left : Text → Text
unfolding is_space
trim_left [] = []
trim_left (c ∷ s) = let rest = trim_left s in if is_space c then rest else c ∷ s

trim_right : Text → Text
unfolding is_space
trim_right [] = []
trim_right (c ∷ s) = elim (trim_right s) [
  | [] ↦ if is_space c then [] else c ∷ []
  | d ∷ t ↦ c ∷ d ∷ t
]

unfoldable pub trim_space : Text → Text
unfolding trim_left trim_right
trim_space s = trim_right (trim_left s)

-- The loop of `templateReplace`: so many escapes are left, `formatted` is made, and `template` is
-- what is to come. An index past the end of a split panics.
unfoldable pub replace_loop : (Text → Text) → Map Text Text → ℕ → Text → Text → Result Error Text
unfolding cut trim_space
replace_loop sanitize replacements zero formatted template = ok (formatted ++ template)
replace_loop sanitize replacements (suc n) formatted template = elim (cut 123 template) [
  | none ↦ err template_panic
  | some (before, inside) ↦ elim (cut 125 inside) [
    | none ↦ elim (find replacements (trim_space inside)) [
      | none ↦ err no_key_set
      | some replacement ↦ err template_panic
    ]
    | some (key, after) ↦ elim (find replacements (trim_space key)) [
      | none ↦ err no_key_set
      | some replacement ↦
          replace_loop sanitize replacements n (formatted ++ (before ++ sanitize replacement)) after
    ]
  ]
]

-- `templateReplace`
unfoldable pub template_replace : (Text → Text) → Map Text Text → Text → Result Error Text
unfolding count replace_loop
template_replace sanitize replacements template =
    replace_loop sanitize replacements (count 123 template) [] template
