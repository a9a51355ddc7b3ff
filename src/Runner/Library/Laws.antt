-- ===== src/Runner/Library/Laws.antt =====
-- runner/library.go: the factories between registration and removal.
use featureform.Common.{
  ◌≡◌, refl, sym, ap, ◌∙◌, Option, none, some, Result, ok, err, find, put, remove, find-put,
  find-remove, if◌then◌else◌, ◌=?◌, Bool-cases, inl, inr, arith,
}
use featureform.Text.{Text, text_keys, text_eq, text_eq_refl}
use featureform.Runner.Copy.{Error, factory_missing, factory_registered}
use featureform.Runner.Library.{
  RunnerFactory, FactoryMap, register_factory, unregister_factory, create,
}

module _ {C R : Type 0} where
  -- What `Create` does with what the map has under the name.
  made : Text → C → Option (RunnerFactory C R) → Result Error R
  made name config none = err (factory_missing name)
  made name config (some factory) = factory config

  create_lem :
      (name : Text) (config : C) (m : FactoryMap C R)
      → create name config m ≡ made name config (find m name)
  unfolding create made
  create_lem name config m = by_found (find m name)
    where
      by_found :
          (found : Option (RunnerFactory C R))
          → elim found [ none ↦ err (factory_missing name) | some factory ↦ factory config ]
            ≡ made name config found
      by_found none = refl
      by_found (some factory) = refl

  register_lem :
      (name : Text) (factory : RunnerFactory C R) (m : FactoryMap C R)
      → find m name ≡ none
      → register_factory name factory m ≡ (ok tt, put m name factory)
  unfolding register_factory
  register_lem name factory m free = rw (free, register_factory) refl

  taken_lem :
      (name : Text) (factory other : RunnerFactory C R) (m : FactoryMap C R)
      → find m name ≡ some other
      → register_factory name factory m ≡ (err (factory_registered name), m)
  unfolding register_factory
  taken_lem name factory other m taken = rw (taken, register_factory) refl

  unregister_lem :
      (name : Text) (other : RunnerFactory C R) (m : FactoryMap C R)
      → find m name ≡ some other
      → unregister_factory name m ≡ (ok tt, remove m name)
  unfolding unregister_factory
  unregister_lem name other m taken = rw (taken, unregister_factory) refl

  find-same :
      (name : Text) (factory : RunnerFactory C R) (m : FactoryMap C R)
      → find (put m name factory) name ≡ some factory
  find-same name factory m = find-put m name factory name ∙ ground (arith, text_eq_refl name)

  find-gone : (name : Text) (m : FactoryMap C R) → find (remove m name) name ≡ none
  find-gone name m = find-remove m name name ∙ ground (arith, text_eq_refl name)

  -- A name that is free can be registered. `Create` then runs the factory for that name and does for
  -- any other name what it did before; a second factory under the name is refused without a change.
  -- Once the name is unregistered again, `Create` fails for it.
  pub register_factory-create :
      (name : Text) (factory second : RunnerFactory C R) (m : FactoryMap C R) (other : Text)
      (config : C)
      → find m name ≡ none
      → let after = (register_factory name factory m).1 in
        ((register_factory name factory m).0 ≡ ok tt)
        × (create other config after
            ≡ (if name =? other then factory config else create other config m))
        × (register_factory name second after ≡ (err (factory_registered name), after))
        × ((unregister_factory name after).0 ≡ ok tt)
        × (create name config (unregister_factory name after).1 ≡ err (factory_missing name))
  unfolding made
  register_factory-create name factory second m other config free =
      rw (register_lem name factory m free) (
        refl,
        create_lem other config (put m name factory)
            ∙ ap (made other config) (find-put m name factory other)
            ∙ by_name,
        taken_lem name second factory (put m name factory) (find-same name factory m),
        ap (λ p. p.0) (unregister_lem name factory (put m name factory) (find-same name factory m)),
        ap (λ p. create name config p.1)
              (unregister_lem name factory (put m name factory) (find-same name factory m))
            ∙ create_lem name config (remove (put m name factory) name)
            ∙ ap (made name config) (find-gone name (put m name factory)),
      )
    where
      by_name :
          made other config (if name =? other then some factory else find m other)
          ≡ (if name =? other then factory config else create other config m)
      by_name = elim (Bool-cases (text_eq name other)) [
        | inl same ↦ rw same refl
        | inr differ ↦ rw differ (sym (create_lem other config m))
      ]
