-- ===== src/Coordinator/Templates/Filled.antt =====
-- coordinator/coordinator.go: what `templateReplace` makes of a well formed template.
use featureform.Common.{
  ℕ, suc, ◌≡◌, refl, ap, ◌∙◌, Option, none, some, List, [], ◌∷◌, ◌++◌, false, ◌&&◌, Result, ok, err,
  ◌>>=◌, Map, find, arith, ◌==◌,
}
use mathlib.Core.List.{append_assoc}
use featureform.Text.{Text, text_keys}
use featureform.Coordinator.Services.{Error, no_key_set}
use featureform.Coordinator.Templates.{cut, count, trim_space, replace_loop, template_replace}

-- The byte nowhere stands twice in a row.
unfoldable pub HasNoPair : ℕ → Text → Type 0
HasNoPair c [] = Unit
HasNoPair c (a ∷ []) = Unit
HasNoPair c (a ∷ b ∷ s) = ((a == c && b == c) ≡ false) × HasNoPair c (b ∷ s)

-- The text of a template: what stands before each escape, the escape's key in double braces, and
-- what stands after the last one.
unfoldable pub template_of : List (Text × Text) → Text → Text
template_of [] tail = tail
template_of ((before, key) ∷ escapes) tail =
    before ++ (123 ∷ 123 ∷ (key ++ (125 ∷ 125 ∷ template_of escapes tail)))

-- The keys replaced one by one, from the left.
unfoldable pub filled :
    (Text → Text) → Map Text Text → List (Text × Text) → Text → Result Error Text
filled sanitize replacements [] tail = ok tail
filled sanitize replacements ((before, key) ∷ escapes) tail =
    elim (find replacements (trim_space key)) [
      | none ↦ err no_key_set
      | some replacement ↦ do
        rest ← filled sanitize replacements escapes tail
        ok (before ++ (sanitize replacement ++ rest))
    ]

-- The parts of a template. Braces may stand anywhere, as long as the first double brace behind the
-- text made so far is the one of the next escape, and the first double closing brace in it is the one
-- behind its key: so no text has a double opening brace, nor has it with the brace that follows, and
-- no key has one, nor a double closing brace with the brace that follows.
unfoldable pub IsTemplate : List (Text × Text) → Text → Type 0
IsTemplate [] tail = HasNoPair 123 tail
IsTemplate ((before, key) ∷ escapes) tail =
    HasNoPair 123 (before ++ (123 ∷ []))
    × HasNoPair 123 key
    × HasNoPair 125 (key ++ (125 ∷ []))
    × IsTemplate escapes tail

cut-skip :
    (c a b : ℕ) (s before after : Text)
    → (a == c && b == c) ≡ false
    → cut c (b ∷ s) ≡ some (before, after)
    → cut c (a ∷ b ∷ s) ≡ some (a ∷ before, after)
unfolding cut
cut-skip c a b s before after differ h = ground (arith, differ, h)

cut-free :
    (c : ℕ) (before after : Text)
    → HasNoPair c (before ++ (c ∷ []))
    → cut c (before ++ (c ∷ c ∷ after)) ≡ some (before, after)
unfolding cut HasNoPair
cut-free c [] after free = ground arith
cut-free c (a ∷ []) after (differ, free) =
    cut-skip c a c (c ∷ after) [] after differ (cut-free c [] after tt)
cut-free c (a ∷ b ∷ before) after (differ, free) =
    cut-skip c a b (before ++ (c ∷ c ∷ after)) (b ∷ before) after differ
      (cut-free c (b ∷ before) after free)

count-skip :
    (c a b : ℕ) (s : Text) → (a == c && b == c) ≡ false → count c (a ∷ b ∷ s) ≡ count c (b ∷ s)
unfolding count
count-skip c a b s differ = ground (arith, differ)

count-free :
    (c d : ℕ) (before s : Text)
    → HasNoPair c (before ++ (d ∷ []))
    → count c (before ++ (d ∷ s)) ≡ count c (d ∷ s)
unfolding HasNoPair
count-free c d [] s free = refl
count-free c d (a ∷ []) s (differ, free) = count-skip c a d s differ
count-free c d (a ∷ b ∷ before) s (differ, free) =
    count-skip c a b (before ++ (d ∷ s)) differ ∙ count-free c d (b ∷ before) s free

count-none : (c : ℕ) (s : Text) → HasNoPair c s → count c s ≡ 0
unfolding HasNoPair count
count-none c [] free = refl
count-none c (a ∷ []) free = refl
count-none c (a ∷ b ∷ s) (differ, free) = count-skip c a b s differ ∙ count-none c (b ∷ s) free

HasNoPair-closed : (s : Text) → HasNoPair 123 s → HasNoPair 123 (s ++ (125 ∷ []))
unfolding HasNoPair
HasNoPair-closed [] free = tt
HasNoPair-closed (a ∷ []) free = (ground arith, tt)
HasNoPair-closed (a ∷ b ∷ s) (differ, free) = (differ, HasNoPair-closed (b ∷ s) free)

count-pair : (c : ℕ) (s : Text) → count c (c ∷ c ∷ s) ≡ suc (count c s)
unfolding count
count-pair c s = ground arith

count-closed : (s : Text) → count 123 (125 ∷ s) ≡ count 123 s
unfolding count
count-closed [] = refl
count-closed (a ∷ s) = count-skip 123 125 a s (ground arith)

count-template :
    (before key rest : Text)
    → HasNoPair 123 (before ++ (123 ∷ []))
    → HasNoPair 123 key
    → count 123 (before ++ (123 ∷ 123 ∷ (key ++ (125 ∷ 125 ∷ rest)))) ≡ suc (count 123 rest)
count-template before key rest free key_free =
    count-free 123 123 before (123 ∷ (key ++ (125 ∷ 125 ∷ rest))) free
    ∙ count-pair 123 (key ++ (125 ∷ 125 ∷ rest))
    ∙ ap suc (
        count-free 123 125 key (125 ∷ rest) (HasNoPair-closed key key_free)
        ∙ count-skip 123 125 125 rest (ground arith)
        ∙ count-closed rest)

module _ (sanitize : Text → Text) (replacements : Map Text Text) where
  -- The rest of a template behind what is made of it already.
  behind : Text → Result Error Text → Result Error Text
  behind formatted (err e) = err e
  behind formatted (ok rest) = ok (formatted ++ rest)

  behind-next :
      (formatted before quoted : Text) (r : Result Error Text)
      → behind (formatted ++ (before ++ quoted)) r
        ≡ behind formatted (r >>= λ rest. ok (before ++ (quoted ++ rest)))
  unfolding behind
  behind-next formatted before quoted (err e) = refl
  behind-next formatted before quoted (ok rest) = ap ok (
      append_assoc formatted (before ++ quoted) rest
      ∙ ap (λ t. formatted ++ t) (append_assoc before quoted rest))

  -- One round of the loop, over one escape.
  after_key : ℕ → Text → Text → Text → Option Text → Result Error Text
  after_key n formatted before rest none = err no_key_set
  after_key n formatted before rest (some replacement) =
      replace_loop sanitize replacements n (formatted ++ (before ++ sanitize replacement)) rest

  replace_loop-round :
      (n : ℕ) (formatted before key rest : Text)
      → HasNoPair 123 (before ++ (123 ∷ []))
      → HasNoPair 125 (key ++ (125 ∷ []))
      → replace_loop sanitize replacements
          (suc n)
          formatted
          (before ++ (123 ∷ 123 ∷ (key ++ (125 ∷ 125 ∷ rest))))
        ≡ after_key n formatted before rest (find replacements (trim_space key))
  unfolding after_key replace_loop
  replace_loop-round n formatted before key rest free key_free =
      rw (cut-free 123 before (key ++ (125 ∷ 125 ∷ rest)) free, replace_loop)
        (rw (cut-free 125 key rest key_free) (by_key (find replacements (trim_space key))))
    where
      by_key :
          (found : Option Text)
          → elim found [
            | none ↦ err no_key_set
            | some replacement ↦
                replace_loop sanitize replacements n
                  (formatted ++ (before ++ sanitize replacement))
                  rest
          ]
            ≡ after_key n formatted before rest found
      by_key none = refl
      by_key (some replacement) = refl

  replace_loop-template :
      (escapes : List (Text × Text)) (tail formatted : Text)
      → IsTemplate escapes tail
      → replace_loop sanitize replacements
          (count 123 (template_of escapes tail))
          formatted
          (template_of escapes tail)
        ≡ behind formatted (filled sanitize replacements escapes tail)
  unfolding IsTemplate template_of filled behind replace_loop after_key
  replace_loop-template [] tail formatted free = rw (count-none 123 tail free) refl
  replace_loop-template ((before, key) ∷ escapes) tail formatted (free, key_free, key_free', rest) =
      rw (count-template before key (template_of escapes tail) free key_free) (
        replace_loop-round (count 123 (template_of escapes tail)) formatted before key
          (template_of escapes tail) free key_free'
        ∙ on_key (λ more. replace_loop-template escapes tail more rest)
            (find replacements (trim_space key)))
    where
      on_key :
          ((more : Text)
            → replace_loop sanitize replacements
                (count 123 (template_of escapes tail))
                more
                (template_of escapes tail)
              ≡ behind more (filled sanitize replacements escapes tail))
          → (found : Option Text)
          → after_key
              (count 123 (template_of escapes tail))
              formatted
              before
              (template_of escapes tail)
              found
            ≡ behind formatted (elim found [
              | none ↦ err no_key_set
              | some replacement ↦ filled sanitize replacements escapes tail >>= λ more.
                  ok (before ++ (sanitize replacement ++ more))
            ])
      on_key later none = refl
      on_key later (some replacement) =
          later (formatted ++ (before ++ sanitize replacement))
          ∙ behind-next formatted before (sanitize replacement)
              (filled sanitize replacements escapes tail)

  -- Of a template whose double braces are those around its keys, `templateReplace` replaces each
  -- escape, from the left, by the quoted replacement of its trimmed key and keeps all other text,
  -- single braces too. It fails exactly where the replacements lack a key. The text before an escape
  -- has no double opening brace and does not end in an opening brace, a key has no double opening or
  -- closing brace and does not end in a closing one, and the text behind the last escape has no
  -- double opening brace.
  pub template_replace-template :
      (escapes : List (Text × Text)) (tail : Text)
      → IsTemplate escapes tail
      → template_replace sanitize replacements (template_of escapes tail)
        ≡ filled sanitize replacements escapes tail
  unfolding template_replace behind
  template_replace-template escapes tail template =
      replace_loop-template escapes tail [] template
      ∙ nothing_before (filled sanitize replacements escapes tail)
    where
      nothing_before : (r : Result Error Text) → behind [] r ≡ r
      nothing_before (ok t) = refl
      nothing_before (err e) = refl
