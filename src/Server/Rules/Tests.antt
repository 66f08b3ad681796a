-- ===== src/Server/Rules/Tests.antt =====
-- The rules of the server on small inputs.
use mathlib.Core.Option.{some-injective}
use to_toggle.Prelude.{
  has_prefix, ◌≡◌, refl, subst, ◌≤◌, arith, true, false, ◌&&◌, ◌||◌, some, [], ◌∷◌, Text, codes,
  text_eq, leb,
}
use to_toggle.Sdk.Rule as Client
use to_toggle.Sdk.Samples.{hundredths_of_one}
use to_toggle.Server.Db.{ok, err, invalid}
use to_toggle.Server.Toggles.{ActivationRule}
use to_toggle.Server.Rules.{Json, raw_context_key, rule_context_key, validate_rule, validate_value}
use to_toggle.Server.Rules.Evaluable.{
  ReadsField, context_keys, read_rule, validate_rule-context_key,
}
use to_toggle.Server.Rules.Ephemeral.{Unicode, has_ephemeral_context_key_risk}

-- Configurations of one field, written without braces and quotes.
abbrev plain : Json
plain = record { object = λ c. some ((codes "context_key", c) ∷ []); string = λ v. some v }

plain-ReadsField : ReadsField plain (λ c. some c) (λ n. n)
unfolding raw_context_key text_eq
plain-ReadsField [] key m e o f = cc
plain-ReadsField (c ∷ config) key m e o f = e

abbrev for_country : ActivationRule
for_country = record { kind = codes "country"; value = codes "BR,PT"; config = codes "country" }

validate_rule-context_key_example :
    (Client.is_valid_rule (read_rule for_country) ≡ true)
    × (Client.context_key (λ c. some c) (read_rule for_country) ≡ (codes "country", true))
unfolding text_eq rule_context_key raw_context_key validate_rule has_prefix
validate_rule-context_key_example =
    validate_rule-context_key hundredths_of_one plain (λ c. some c) (λ n. n) for_country
      plain-ReadsField
      (λ m o. subst (λ l. context_keys (λ n. n) l ≤ 1) (some-injective _ _ o) (omega arith)) refl

-- Two members of one name: the last counts.
last_member_counts :
    raw_context_key
      (record plain {
        object = λ c. some ((codes "context_key", []) ∷ (codes "context_key", c) ∷ []);
      })
      (codes "country")
    ≡ some (codes "country")
unfolding raw_context_key text_eq
last_member_counts = refl

abbrev at_night : ActivationRule
at_night = record { kind = codes "time"; value = codes "22:00-06:00"; config = [] }

overnight_hour_accepted : validate_rule hundredths_of_one plain at_night ≡ ok tt
unfolding validate_rule text_eq
overnight_hour_accepted = refl

midnight_as_24_refused :
    validate_value hundredths_of_one (record at_night { value = codes "18:00-24:00" })
    ≡ err (invalid "time is not a window")
unfolding validate_value text_eq
midnight_as_24_refused = refl

wrong_key_refused :
    validate_rule hundredths_of_one plain (record for_country { config = codes "ip" })
    ≡ err (invalid "context_key")
unfolding validate_rule text_eq has_prefix
wrong_key_refused = refl

unknown_type_refused :
    validate_rule hundredths_of_one plain (record for_country { kind = codes "attribute" })
    ≡ err (invalid "type")
unfolding validate_rule text_eq
unknown_type_refused = refl

abbrev ascii : Unicode
ascii = record {
  is_alphanumeric = λ c. leb 48 c && leb c 57 || (leb 97 c && leb c 122);
  to_lower = λ s. s;
}

abbrev share_by : Text → ActivationRule
share_by key = record { kind = codes "percentage"; value = codes "5"; config = key }

client_ip_is_risky :
    has_ephemeral_context_key_risk ascii plain (share_by (codes "attributes.client_ip")) ≡ true
unfolding has_ephemeral_context_key_risk text_eq has_prefix
client_ip_is_risky = refl

recipient_id_is_not_risky :
    has_ephemeral_context_key_risk ascii plain (share_by (codes "attributes.recipient_id")) ≡ false
unfolding has_ephemeral_context_key_risk text_eq has_prefix
recipient_id_is_not_risky = refl
