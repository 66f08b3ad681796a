-- ===== src/Server/Rules.antt =====
-- server/internal/app/domain/entity/activation_rule.go: which activation rules the server stores.
-- encoding/json and the float parser are parameters; the messages of the errors are left out, but
-- for which of them it is.
use to_toggle.Prelude.{
  ℕ, Bool, true, false, not, ◌&&◌, ◌||◌, Option, none, some, List, [], ◌∷◌, Text, codes, text_eq,
  is_empty, has_prefix, trim_space, leb, ◌==◌, if◌then◌else◌,
}
use to_toggle.Sdk.Rule.{attributes_prefix, after}
use to_toggle.Sdk.Strategy.Window.{is_digit}
use to_toggle.Sdk.Strategy.Percentage.{Floats}
use to_toggle.Server.Db.{Answer, ok, err, invalid}
use to_toggle.Server.Toggles.{ActivationRule}
pub mod ContextKeys
pub mod Evaluable
pub mod Windows
pub mod Ephemeral
mod Tests

-- What the code uses of encoding/json: the members of an object, names and values, as they are
-- written, which json.Unmarshal enters into a map[string]json.RawMessage one after the other; and
-- json.Unmarshal into a string. `none` is an error.
pub record Json : Type 0 where
  pub object : Text → Option (List (Text × Text))
  pub string : Text → Option Text

-- Two digits of the pattern: `[01]\d|2[0-3]`, and `[0-5]\d`.
abbrev pub is_hour : ℕ → ℕ → Bool
is_hour a b = ((a == b'0' || a == b'1') && is_digit b) || (a == b'2' && (leb b'0' b && leb b b'3'))

abbrev pub is_minute : ℕ → ℕ → Bool
is_minute a b = (leb b'0' a && leb a b'5') && is_digit b

-- Five characters, and timeWindowPattern: `^([01]\d|2[0-3]):[0-5]\d-([01]\d|2[0-3]):[0-5]\d$`
abbrev pub is_time : ℕ → ℕ → ℕ → ℕ → ℕ → Bool
is_time a b c d e = is_hour a b && (c == b':' && is_minute d e)

unfoldable pub matches_time_window : Text → Bool
matches_time_window (a ∷ b ∷ c ∷ d ∷ e ∷ f ∷ g ∷ h ∷ i ∷ j ∷ k ∷ []) =
    is_time a b c d e && (f == b'-' && is_time g h i j k)
matches_time_window _ = false

-- validContextKey
unfoldable pub valid_context_key : Text → Text → Bool
valid_context_key t key =
    if has_prefix key attributes_prefix
    then not (is_empty (after attributes_prefix key))
      && (text_eq t (codes "percentage") || text_eq t (codes "parameter"))
    else (text_eq t (codes "percentage") && text_eq key (codes "rollout_key"))
      || (text_eq t (codes "user_id") && text_eq key (codes "user_id"))
      || (text_eq t (codes "ip") && text_eq key (codes "ip"))
      || (text_eq t (codes "country") && text_eq key (codes "country"))
      || (text_eq t (codes "cohort") && text_eq key (codes "cohort"))

-- `m[name]`: of members that have the same name, the map keeps the last.
unfoldable pub field : Text → List (Text × Text) → Option Text
field name [] = none
field name ((n, v) ∷ m) = elim (field name m) [
  | some w ↦ some w
  | none ↦ if text_eq n name then some v else none
]

abbrev pub and_some : {A B : Type 0} → Option A → (A → Option B) → Option B
and_some none f = none
and_some (some a) f = f a

-- The string under `context_key` of the configuration, if it has one: json.Unmarshal, the lookup,
-- and json.Unmarshal, each of which may fail.
unfoldable pub raw_context_key : Json → Text → Option Text
unfolding field
raw_context_key json config =
    if is_empty config
    then none
    else and_some (json.object config) (λ m. and_some (field (codes "context_key") m) json.string)

-- ActivationRule.ContextKey
unfoldable pub rule_context_key : Json → ActivationRule → Text
unfolding raw_context_key
rule_context_key json r = elim (raw_context_key json r.config) [ none ↦ [] | some key ↦ key ]

unfoldable pub check_key : Text → Option Text → Answer Unit
unfolding valid_context_key
check_key kind none = err (invalid "context_key")
check_key kind (some key) =
    if valid_context_key kind key then ok tt else err (invalid "context_key")

-- The configuration of a rule that is not of the type `time`.
unfoldable pub validate_config : Json → ActivationRule → Answer Unit
unfolding raw_context_key check_key
validate_config json r = check_key r.kind (raw_context_key json r.config)

-- On to the second check, unless the first one returned an error.
abbrev pub unless_error : Answer Unit → Answer Unit → Answer Unit
unless_error (ok u) next = next
unless_error (err e) next = err e

module _ (floats : Floats) where
  open floats use {parse, less, nought, hundred}

  abbrev pub in_percents : Text → Bool
  in_percents value = elim (parse (trim_space value)) [
    | none ↦ false
    | some p ↦ not (less p nought || less hundred p)
  ]

  -- The switch of ValidateRule on the type, up to the configuration.
  unfoldable pub validate_value : ActivationRule → Answer Unit
  unfolding matches_time_window
  validate_value r =
      if text_eq r.kind (codes "percentage")
      then if is_empty r.value
        then err (invalid "percentage is required")
        else if in_percents r.value
        then ok tt
        else err (invalid "percentage is out of range")
      else if text_eq r.kind (codes "parameter")
          || text_eq r.kind (codes "user_id")
          || text_eq r.kind (codes "ip")
          || text_eq r.kind (codes "country")
      then if is_empty r.value then err (invalid "value is required") else ok tt
      else if text_eq r.kind (codes "cohort")
      then ok tt
      else if text_eq r.kind (codes "time")
      then if is_empty r.value
        then err (invalid "time is required")
        else if matches_time_window r.value
        then ok tt
        else err (invalid "time is not a window")
      else err (invalid "type")

  unfoldable pub validate_rest : Json → ActivationRule → Answer Unit
  unfolding validate_config
  validate_rest json r =
      if text_eq r.kind (codes "time")
      then if is_empty r.config || text_eq r.config (codes "null")
        then ok tt
        else err (invalid "a time rule takes no context_key")
      else validate_config json r

  -- ActivationRule.ValidateRule
  unfoldable pub validate_rule : Json → ActivationRule → Answer Unit
  unfolding validate_value validate_rest
  validate_rule json r = unless_error (validate_value r) (validate_rest json r)
