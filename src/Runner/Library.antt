-- ===== src/Runner/Library.antt =====
-- runner/library.go: the registry of the factories that make runners, a map under a global variable.
-- A factory is any function of a configuration.
pub mod Laws
use featureform.Common.{Option, none, some, [], Result, ok, err, Action, Map, find, put, remove}
use featureform.Text.{Text, text_keys}
use featureform.Runner.Copy.{Error, factory_missing, factory_registered}

-- `RunnerFactory`
abbrev pub RunnerFactory : Type 0 → Type 0 → Type 0
RunnerFactory C R = C → Result Error R

-- `factoryMap`
abbrev pub FactoryMap : Type 0 → Type 0 → Type 0
FactoryMap C R = Map Text (RunnerFactory C R)

module _ {C R : Type 0} where
  -- `ResetFactoryMap`
  unfoldable pub reset_factory_map : FactoryMap C R → FactoryMap C R
  reset_factory_map m = []

  -- `RegisterFactory`
  unfoldable pub register_factory :
      Text → RunnerFactory C R → Action Error (FactoryMap C R) (Unit {0})
  register_factory name factory m = elim (find m name) [
    | some f ↦ (err (factory_registered name), m)
    | none ↦ (ok tt, put m name factory)
  ]

  -- `UnregisterFactory`
  unfoldable pub unregister_factory : Text → Action Error (FactoryMap C R) (Unit {0})
  unregister_factory name m = elim (find m name) [
    | none ↦ (err (factory_missing name), m)
    | some f ↦ (ok tt, remove m name)
  ]

  -- `Create`
  unfoldable pub create : Text → C → FactoryMap C R → Result Error R
  create name config m = elim (find m name) [
    | none ↦ err (factory_missing name)
    | some factory ↦ factory config
  ]
