-- ===== src/Server/Rules/Ephemeral.antt =====
-- HasEphemeralContextKeyRisk of server/internal/app/domain/entity/activation_rule.go. The classes
-- of package unicode and strings.ToLower are parameters.
use to_toggle.Prelude.{
  ℕ, Bool, false, not, List, [], ◌∷◌, Text, codes, text_eq, has_prefix, any, select, is_empty,
  if◌then◌else◌,
}
use to_toggle.Sdk.Rule.{attributes_prefix, after}
use to_toggle.Server.Toggles.{ActivationRule}
use to_toggle.Server.Rules.{Json, rule_context_key}

-- ephemeralContextKeyTokens
abbrev pub is_ephemeral_token : Text → Bool
is_ephemeral_token t =
    any (λ name. text_eq t name)
      (codes "ip" ∷ codes "session" ∷ codes "request" ∷ codes "token" ∷ codes "nonce" ∷ [])

-- unicode.IsLetter or unicode.IsDigit, and strings.ToLower.
pub record Unicode : Type 0 where
  pub is_alphanumeric : ℕ → Bool
  pub to_lower : Text → Text

abbrev pub onto_head : ℕ → List Text → List Text
onto_head c [] = (c ∷ []) ∷ []
onto_head c (w ∷ ws) = (c ∷ w) ∷ ws

-- The runs of characters between those that the test holds of, the empty ones too.
unfoldable pub runs_between : (ℕ → Bool) → Text → List Text
runs_between cuts [] = [] ∷ []
runs_between cuts (c ∷ s) =
    let rest = runs_between cuts s in if cuts c then [] ∷ rest else onto_head c rest

-- strings.FieldsFunc
abbrev pub fields_func : (ℕ → Bool) → Text → List Text
fields_func cuts s = select (λ w. not (is_empty w)) (runs_between cuts s)

-- ActivationRule.HasEphemeralContextKeyRisk
unfoldable pub has_ephemeral_context_key_risk : Unicode → Json → ActivationRule → Bool
unfolding rule_context_key runs_between
has_ephemeral_context_key_risk u json r =
    let key = rule_context_key json r in
    if not (text_eq r.kind (codes "percentage"))
    then false
    else if not (has_prefix key attributes_prefix)
    then false
    else any (λ token. is_ephemeral_token (u.to_lower token))
        (fields_func (λ c. not (u.is_alphanumeric c)) (after attributes_prefix key))
