-- ===== src/Sdk/Strategy/Registry.antt =====
-- totoggle_go/internal/strategy/strategy.go and newStrategyRegistry of totoggle_go/client.go: the
-- evaluator of each rule type. The registry is the list of its map's entries; a later registration
-- of a type replaces the earlier one.
use to_toggle.Prelude.{ℕ, ◌≡◌, refl, Bool, Option, none, some, List, [], ◌∷◌, Text, if◌then◌else◌}
use to_toggle.Sdk.Rule.{
  RuleType, percentage, parameter, user_id, ip, country, time, cohort, other, type_eq,
  ActivationRule,
}
use to_toggle.Sdk.Strategy.MatchList.{match_list, presence}
use to_toggle.Sdk.Strategy.Window.{time_window}
use to_toggle.Sdk.Strategy.Percentage.{Floats, percentage_matches}
use to_toggle.Sdk.Strategy.Ip.{Net, ip_matches}

-- Evaluator
abbrev pub Evaluator : Type 0
Evaluator = ActivationRule → Text → Bool → Bool

abbrev pub Registry : Type 0
Registry = List (RuleType × Evaluator)

-- Registry.Register
unfoldable pub register : RuleType → Evaluator → Registry → Registry
register t e [] = (t, e) ∷ []
register t e ((u, f) ∷ r) = if type_eq u t then (t, e) ∷ r else (u, f) ∷ register t e r

unfoldable pub find_evaluator : RuleType → Registry → Option Evaluator
find_evaluator t [] = none
find_evaluator t ((u, f) ∷ r) = if type_eq u t then some f else find_evaluator t r

-- Registry.Evaluate; `none` is the error for a type that is not registered.
unfoldable pub evaluate : Registry → ActivationRule → Text → Bool → Option Bool
unfolding find_evaluator
evaluate reg rule key has_key = elim (find_evaluator rule.kind reg) [
  | none ↦ none
  | some e ↦ some (e rule key has_key)
]

-- What the evaluators read of the world at one evaluation.
pub record World : Type 1 where
  pub floats : Floats
  pub net : Net
  pub random : floats.Float
  pub now : ℕ  -- the minute of the day in the configured zone

-- newStrategyRegistry
unfoldable pub new_strategy_registry : World → Registry
unfolding register
new_strategy_registry w = register time (time_window w.now) (
    register ip (ip_matches w.net) (
      register percentage (percentage_matches w.floats w.random) (
        register cohort presence (
          register country match_list
            (register user_id match_list (register parameter match_list []))))))

-- The evaluator that answers for each type of rule.
pub evaluator_of : World → RuleType → Option Evaluator
evaluator_of w percentage = some (percentage_matches w.floats w.random)
evaluator_of w parameter = some match_list
evaluator_of w user_id = some match_list
evaluator_of w ip = some (ip_matches w.net)
evaluator_of w country = some match_list
evaluator_of w time = some (time_window w.now)
evaluator_of w cohort = some presence
evaluator_of w (other s) = none

pub find_evaluator-new_strategy_registry :
    (w : World) (t : RuleType) → find_evaluator t (new_strategy_registry w) ≡ evaluator_of w t
unfolding find_evaluator new_strategy_registry evaluator_of
find_evaluator-new_strategy_registry w percentage = refl
find_evaluator-new_strategy_registry w _ = refl
