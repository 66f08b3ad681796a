-- ===== src/Sdk/Client/Evaluate.antt =====
-- totoggle_go/client.go: IsActive, IsActiveContext, evaluate, evaluateAncestors, evaluateRule and
-- contextKey. The resolver of the request's context is the application's, and may panic.
use to_toggle.Prelude.{
  Bool, true, false, ◌&&◌, ◌||◌, not, Option, none, some, List, [], ◌∷◌, ◌++◌, Text, is_empty,
  if◌then◌else◌,
}
use to_toggle.Sdk.Path.{NewPath, valid, invalid, new_path}
use to_toggle.Sdk.Rule.{percentage, time, type_eq, ActivationRule, context_key}
use to_toggle.Sdk.Catalog.{Flag}
use to_toggle.Sdk.Cache.{Cache, get}
use to_toggle.Sdk.Errors.{Notice, evaluation}
use to_toggle.Sdk.Strategy.Registry.{World, evaluate, new_strategy_registry}

-- What a call of the resolver does.
pub data Resolved : Type 0 where
  found : Text → Resolved
  missing : Resolved
  panics : Resolved

abbrev pub Resolver : Type 0
Resolver = Text → Resolved

-- What an evaluation reads: the client's flags and cache, the configured resolver applied to the
-- request's context, the JSON decoder of a rule's configuration, and the world.
pub record Reading : Type 1 where
  pub started : Bool
  pub shutdown : Bool
  pub cache : Cache
  pub resolver : Option Resolver
  pub unmarshal : Text → Option Text
  pub world : World

-- A Go call: it returns, or it panics.
pub data Outcome (A : Type 0) : Type 0 where
  returns : A → Outcome A
  panicked : Outcome A

-- Client.contextKey, once the resolver has answered.
unfoldable pub resolved_key : Bool → Text → Resolved → Outcome (Option Text)
resolved_key percent path panics = panicked
resolved_key percent path missing = returns none
resolved_key percent path (found value) =
    if is_empty value
    then returns none
    else if percent
    then returns (some (path ++ (b':' ∷ value)))
    else returns (some value)

-- Client.contextKey
unfoldable pub client_context_key : Option Resolver → Text → Bool → Text → Outcome (Option Text)
unfolding resolved_key
client_context_key none key percent path = returns none
client_context_key (some resolve) key percent path = resolved_key percent path (resolve key)

abbrev pub text_or_empty : Option Text → Text
text_or_empty none = []
text_or_empty (some s) = s

abbrev pub has_text : Option Text → Bool
has_text none = false
has_text (some s) = true

-- The end of Client.evaluateRule: an error of the registry reads as false.
unfoldable pub registry_result : World → ActivationRule → Option Text → Bool
registry_result w rule key =
    if not (type_eq rule.kind time) && not (has_text key)
    then false
    else elim (evaluate (new_strategy_registry w) rule (text_or_empty key) (has_text key)) [
      | none ↦ false
      | some result ↦ result
    ]

unfoldable pub rule_with_key : Reading → Flag → ActivationRule → Text × Bool → Outcome Bool
unfolding client_context_key registry_result
rule_with_key c t rule (key, usable) =
    if not usable
    then returns false
    else elim (client_context_key c.resolver key (type_eq rule.kind percentage) t.path.value) [
      | panicked ↦ panicked
      | returns resolved ↦ returns (registry_result c.world rule resolved)
    ]

-- Client.evaluateRule
unfoldable pub evaluate_rule : Reading → Flag → Outcome Bool
unfolding rule_with_key
evaluate_rule c t = if not t.has_activation_rule then returns true else elim t.activation_rule [
  | none ↦ returns true
  | some rule ↦ rule_with_key c t rule (context_key c.unmarshal rule)
]

-- Client.evaluateAncestors
unfoldable pub evaluate_ancestors : List Flag → Bool
evaluate_ancestors [] = true
evaluate_ancestors (a ∷ l) =
    let rest = evaluate_ancestors l in if not a.enabled then false else rest

-- Client.evaluate on the toggle that the cache gave: the rule is read only if all is enabled.
unfoldable pub evaluate_target : Reading → Flag × List Flag → Outcome Bool
evaluate_target c (target, ancestors) =
    if evaluate_ancestors ancestors && target.enabled then evaluate_rule c target else returns false

unfoldable pub with_notice : Text → Outcome Bool → Outcome (Bool × List Notice)
with_notice path (returns result) = returns (result, evaluation path result ∷ [])
with_notice path panicked = panicked

unfoldable pub evaluate_path : Reading → Text → NewPath → Outcome (Bool × List Notice)
unfolding evaluate_target with_notice get
evaluate_path c path (invalid e) = returns (false, [])
evaluate_path c path (valid p) = elim (get p c.cache) [
  | none ↦ returns (false, evaluation path false ∷ [])
  | some hit ↦ with_notice path (evaluate_target c hit)
]

-- Client.evaluate: the result, and what the listeners are told.
unfoldable pub evaluate_toggle : Reading → Text → Outcome (Bool × List Notice)
unfolding evaluate_path
evaluate_toggle c path =
    if not c.started || c.shutdown
    then returns (false, [])
    else evaluate_path c path (new_path path)

-- Client.IsActiveContext, and IsActive at the empty context: a panic is recovered as false.
unfoldable pub is_active : Reading → Text → Bool × List Notice
unfolding evaluate_toggle
is_active c path = elim (evaluate_toggle c path) [
  | returns result ↦ result
  | panicked ↦ (false, [])
]
