-- ===== src/Metadata/Names/Safety.antt =====
-- What `resourceNamedSafely` accepts, read off the positions of the underscores.
use featureform.Common.{
  ℕ, zero, suc, ◌-◌, ◌≡◌, ◌≢◌, refl, ◌↔◌, false, some, [], ◌∷◌, arith, length, get_elem?, ok,
}
use featureform.Text.{Text, bytes, has_prefix, has_suffix, contains}
use featureform.Metadata.Types.{ResourceId}
use featureform.Metadata.Names.{resource_named_safely}

-- No underscore stands first or last, and no two stand side by side.
pub record IsSafe (s : Text) : Type 0 where
  pub no_double : (i : ℕ) → get_elem? s i ≡ some b'_' → get_elem? s (suc i) ≢ some b'_'
  pub first : get_elem? s 0 ≢ some b'_'
  pub last : get_elem? s (length s - 1) ≢ some b'_'

-- The same by recursion: `NoDouble`, and `IsDelimited` where the last byte counts too.
abbrev pub NoDouble : Text → Type 0
NoDouble [] = Unit
NoDouble (c ∷ []) = Unit
NoDouble (c ∷ d ∷ s) = (c ≡ b'_' → d ≢ b'_') × NoDouble (d ∷ s)

abbrev pub IsDelimited : Text → Type 0
IsDelimited [] = Unit
IsDelimited (c ∷ []) = c ≢ b'_'
IsDelimited (c ∷ d ∷ s) = (c ≡ b'_' → d ≢ b'_') × IsDelimited (d ∷ s)

module _ where
  NoDouble-at :
      (s : Text)
      → NoDouble s
      → (i : ℕ) → get_elem? s i ≡ some b'_'
      → get_elem? s (suc i) ≢ some b'_'
  NoDouble-at [] n i h = λ e. cc
  NoDouble-at (c ∷ []) n zero h = λ e. cc
  NoDouble-at (c ∷ []) n (suc i) h = λ e. cc
  NoDouble-at (c ∷ d ∷ s) n zero h = ground arith
  NoDouble-at (c ∷ d ∷ s) n (suc i) h = NoDouble-at (d ∷ s) n.1 i h

  NoDouble-of_at :
      (s : Text)
      → ((i : ℕ) → get_elem? s i ≡ some b'_' → get_elem? s (suc i) ≢ some b'_')
      → NoDouble s
  NoDouble-of_at [] h = tt
  NoDouble-of_at (c ∷ []) h = tt
  NoDouble-of_at (c ∷ d ∷ s) h = (ground (arith, h 0), NoDouble-of_at (d ∷ s) (λ i. h (suc i)))

  contains-double : (s : Text) → contains s (bytes "__") ≡ false → NoDouble s
  unfolding contains
  contains-double [] h = tt
  contains-double (c ∷ []) h = tt
  contains-double (c ∷ d ∷ s) h = (ground arith, contains-double (d ∷ s) (ground arith))

  double-contains : (s : Text) → NoDouble s → contains s (bytes "__") ≡ false
  unfolding contains
  double-contains [] h = refl
  double-contains (c ∷ []) h = ground arith
  double-contains (c ∷ d ∷ s) h = ground (arith, double-contains (d ∷ s) h.1)

  has_prefix_iff : (s : Text) → (has_prefix s (bytes "_") ≡ false) ↔ (get_elem? s 0 ≢ some b'_')
  unfolding has_prefix
  has_prefix_iff [] = (λ h e. cc, λ h. refl)
  has_prefix_iff (c ∷ s) = (λ h. ground arith, λ h. ground arith)

  has_suffix_cons :
      (c : ℕ) (s : Text)
      → (has_suffix (c ∷ s) (bytes "_") ≡ false) ↔ (get_elem? (c ∷ s) (length s) ≢ some b'_')
  unfolding has_suffix
  has_suffix_cons c [] = (λ h. ground arith, λ h. ground arith)
  has_suffix_cons c (d ∷ s) =
      (λ h. (has_suffix_cons d s).0 (ground arith), λ h. ground (arith, (has_suffix_cons d s).1 h))

  has_suffix_iff :
      (s : Text) → (has_suffix s (bytes "_") ≡ false) ↔ (get_elem? s (length s - 1) ≢ some b'_')
  unfolding has_suffix
  has_suffix_iff [] = (λ h e. cc, λ h. refl)
  has_suffix_iff (c ∷ s) =
      let back : suc (length s) - 1 ≡ length s = omega arith in rw back (has_suffix_cons c s)

-- A safe text is one that none of the three tests finds fault with.
pub record Passes (s : Text) : Type 0 where
  pub no_banned_string : contains s (bytes "__") ≡ false
  pub no_banned_prefix : has_prefix s (bytes "_") ≡ false
  pub no_banned_suffix : has_suffix s (bytes "_") ≡ false

pub Passes→IsSafe : (s : Text) → Passes s → IsSafe s
Passes→IsSafe s p = record {
  no_double = NoDouble-at s (contains-double s p.no_banned_string);
  first = (has_prefix_iff s).0 p.no_banned_prefix;
  last = (has_suffix_iff s).0 p.no_banned_suffix;
}

pub IsSafe→Passes : (s : Text) → IsSafe s → Passes s
IsSafe→Passes s h = record {
  no_banned_string = double-contains s (NoDouble-of_at s h.no_double);
  no_banned_prefix = (has_prefix_iff s).1 h.first;
  no_banned_suffix = (has_suffix_iff s).1 h.last;
}

accepted-Passes :
    (id : ResourceId) → resource_named_safely id ≡ ok tt → Passes id.name × Passes id.variant
unfolding resource_named_safely
accepted-Passes id h = ground arith

-- `resourceNamedSafely` accepts an id exactly when its name and its variant are safe: in neither
-- does an underscore stand first, last, or beside another.
pub resource_named_safely_iff :
    (id : ResourceId) → (resource_named_safely id ≡ ok tt) ↔ IsSafe id.name × IsSafe id.variant
unfolding resource_named_safely
resource_named_safely_iff id = (
  λ h. let (n, v) = accepted-Passes id h in (Passes→IsSafe id.name n, Passes→IsSafe id.variant v),
  λ (n, v). ground (arith, IsSafe→Passes id.name n, IsSafe→Passes id.variant v),
)

IsDelimited-cons :
    (c : ℕ) (s : Text)
    → NoDouble (c ∷ s)
    → get_elem? (c ∷ s) (length s) ≢ some b'_'
    → IsDelimited (c ∷ s)
IsDelimited-cons c [] n l = ground (arith, l)
IsDelimited-cons c (d ∷ s) n l = (n.0, IsDelimited-cons d s n.1 l)

-- What the keys need of a safe text.
pub IsSafe→IsDelimited : (s : Text) → IsSafe s → IsDelimited s
IsSafe→IsDelimited [] h = tt
IsSafe→IsDelimited (c ∷ s) h =
    let back : suc (length s) - 1 ≡ length s = omega arith in
    IsDelimited-cons c s (NoDouble-of_at (c ∷ s) h.no_double) (rw back at h.last)
