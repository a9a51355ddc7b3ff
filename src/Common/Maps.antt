-- ===== src/Common/Maps.antt =====
-- A Go map as an association list, for a key type with a Boolean test of equality. The order of the
-- entries stands for nothing: Go leaves the order of a `range` over a map open.
use mathlib.Core.Path.{◌≡◌, refl}
use mathlib.Core.Logic.{◌↔◌}
use mathlib.Core.Bool.{Bool, true}
use mathlib.Core.List.{List, [], ◌∷◌}
use mathlib.Core.Option.{Option, none, some}
use native.Mathlib.Omega.{arith}
use mathlib.Core.Logic.{◌⊎◌, inl, inr}
use mathlib.Core.Path.{sym, ap, ◌∙◌}
use featureform.Common.Lists.{In}
use featureform.Common.Tests.{Bool-cases, if◌then◌else◌}

-- Equality of keys, as Go's `==` decides it.
pub record Eq {ℓ} (K : Type ℓ) : Type ℓ where
  pub beq : K → K → Bool
  pub beq_iff : (a b : K) → (beq a b ≡ true) ↔ (a ≡ b)

infix 50 ◌=?◌
abbrev pub ◌=?◌ {ℓ} : {K : Type ℓ} ⦃e : Eq K⦄ → K → K → Bool
◌=?◌ ⦃e⦄ = e.beq

abbrev pub Map {ℓ κ} : Type ℓ → Type κ → Type (ℓ ⊔ κ)
Map K V = List (K × V)

module _ {ℓ κ} {K : Type ℓ} {V : Type κ} ⦃e : Eq K⦄ where
  -- `v, has := m[k]`
  unfoldable pub find : Map K V → K → Option V
  find [] k = none
  find ((j, v) ∷ m) k = if j =? k then some v else find m k

  -- `m[k] = v`
  unfoldable pub put : Map K V → K → V → Map K V
  put [] k v = (k, v) ∷ []
  put ((j, w) ∷ m) k v = if j =? k then (j, v) ∷ m else (j, w) ∷ put m k v

  -- `delete(m, k)`
  unfoldable pub remove : Map K V → K → Map K V
  remove [] k = []
  remove ((j, w) ∷ m) k = let rest = remove m k in if j =? k then rest else (j, w) ∷ rest

  pub find-put :
      (m : Map K V) (k : K) (v : V) (j : K)
      → find (put m k v) j ≡ (if k =? j then some v else find m j)
  unfolding find put
  find-put [] k v j = refl
  find-put ((i, w) ∷ m) k v j =
      ground (arith, find-put m k v j, e.beq_iff i k, e.beq_iff i j, e.beq_iff k j)

  pub find-remove :
      (m : Map K V) (k j : K) → find (remove m k) j ≡ (if k =? j then none else find m j)
  unfolding find remove
  find-remove [] k j = ground arith
  find-remove ((i, w) ∷ m) k j =
      ground (arith, find-remove m k j, e.beq_iff i k, e.beq_iff i j, e.beq_iff k j)

module _ {K V : Type 0} ⦃e : Eq K⦄ where
  -- An entry after a write is the one written or one of before.
  pub In-put :
      (m : Map K V) (k : K) (v : V) (j : K) (w : V)
      → In (j, w) (put m k v)
      → (k ≡ j) × (v ≡ w) ⊎ In (j, w) m
  unfolding put
  In-put [] k v j w (inl p) = inl (ap (λ q. q.0) p, ap (λ q. q.1) p)
  In-put [] k v j w (inr i) = absurd i
  In-put ((i, u) ∷ m) k v j w h = elim (Bool-cases (e.beq i k)) [
    | inl same ↦ In-put_same (rw same at h) ((e.beq_iff i k).0 same)
    | inr other ↦ In-put_other (rw other at h) (In-put m k v j w)
  ]
    where
      In-put_same : In (j, w) ((i, v) ∷ m) → i ≡ k → (k ≡ j) × (v ≡ w) ⊎ In (j, w) ((i, u) ∷ m)
      In-put_same (inl p) q = inl (sym q ∙ ap (λ t. t.0) p, ap (λ t. t.1) p)
      In-put_same (inr h) q = inr (inr h)

      In-put_other :
          In (j, w) ((i, u) ∷ put m k v)
          → (In (j, w) (put m k v) → (k ≡ j) × (v ≡ w) ⊎ In (j, w) m)
          → (k ≡ j) × (v ≡ w) ⊎ In (j, w) ((i, u) ∷ m)
      In-put_other (inl p) later = inr (inl p)
      In-put_other (inr h) later = elim (later h) [ inl p ↦ inl p | inr h' ↦ inr (inr h') ]

  -- What is found stands in the map.
  pub find-In : (m : Map K V) (k : K) (v : V) → find m k ≡ some v → In (k, v) m
  unfolding find
  find-In [] k v h = cc
  find-In ((i, u) ∷ m) k v h = elim (Bool-cases (e.beq i k)) [
    | inl same ↦ inl (ground (arith, (e.beq_iff i k).0 same, same))
    | inr other ↦ inr (find-In m k v (ground (arith, other)))
  ]
