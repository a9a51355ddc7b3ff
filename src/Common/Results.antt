-- ===== src/Common/Results.antt =====
-- Go's (value, error) pairs, over any type of errors, and actions on a state that may fail. The
-- state that an action leaves comes back beside its error too.
use mathlib.Core.Path.{◌≡◌, refl}
use mathlib.Core.Logic.{◌⊎◌, inl, inr}
use mathlib.Core.Bool.{Bool, true, false}

pub data Result {ℓ κ} (E : Type ℓ) (A : Type κ) : Type (ℓ ⊔ κ) where
  ok : A → Result E A
  err : E → Result E A

infixl 5 ◌>>=◌ ◌>>◌
abbrev pub ◌>>=◌ {ℓ κ μ} :
    {E : Type ℓ} {A : Type κ} {B : Type μ} → Result E A → (A → Result E B) → Result E B
ok a >>= f = f a
err e >>= f = err e

abbrev pub ◌>>◌ {ℓ κ μ} :
    {E : Type ℓ} {A : Type κ} {B : Type μ} → Result E A → Result E B → Result E B
m >> k = m >>= λ _. k

pub Result-cases {ℓ κ} :
    {E : Type ℓ} {A : Type κ} (r : Result E A) → ((a : A) × (r ≡ ok a)) ⊎ ((e : E) × (r ≡ err e))
Result-cases (ok a) = inl (a, refl)
Result-cases (err e) = inr (e, refl)

-- `if cond { return error }`
abbrev pub fail_if {ℓ} : {E : Type ℓ} → Bool → E → Result E (Unit {0})
fail_if true e = err e
fail_if false e = ok tt

-- An action on the state `S`.
abbrev pub Action {ℓ κ μ} : Type ℓ → Type κ → Type μ → Type (ℓ ⊔ κ ⊔ μ)
Action E S A = S → Result E A × S

module _ {ℓ κ μ ν} {E : Type ℓ} {S : Type κ} {A : Type μ} {B : Type ν} where
  abbrev pub continue : Result E A → (A → Action E S B) → Action E S B
  continue (ok a) f s = f a s
  continue (err e) f s = (err e, s)

  -- One statement after another, the state threaded through.
  infixl 5 ◌>=>◌
  abbrev pub ◌>=>◌ : Action E S A → (A → Action E S B) → Action E S B
  ◌>=>◌ m f s = let (r, s') = m s in continue r f s'

  -- After a statement that succeeds the rest runs in the state that it leaves.
  pub >=>-ok :
      (m : Action E S A) (f : A → Action E S B) (s : S) (a : A)
      → (m s).0 ≡ ok a
      → (m >=> f) s ≡ f a (m s).1
  >=>-ok m f s a h = rw (h, continue)

  -- A statement that fails ends the chain, with the state that it leaves.
  pub >=>-err :
      (m : Action E S A) (f : A → Action E S B) (s : S) (e : E)
      → (m s).0 ≡ err e
      → (m >=> f) s ≡ (err e, (m s).1)
  >=>-err m f s e h = rw (h, continue)
