-- ===== src/Sdk/Rule.antt =====
-- totoggle_go/internal/toggle/rule.go: activation rules. The raw JSON of `config` is a text; what
-- encoding/json reads as its field `context_key` is a parameter.
use to_toggle.Prelude.{
  Bool, true, false, ◌&&◌, ◌||◌, not, Option, none, some, [], ◌∷◌, Text, codes, text_eq, is_empty,
  has_prefix, trim_space, if◌then◌else◌,
}

pub data RuleType : Type 0 where
  percentage parameter user_id ip country time cohort : RuleType
  other : Text → RuleType

-- `==` on rule types, which are texts in the source.
abbrev pub type_eq : RuleType → RuleType → Bool
type_eq percentage percentage = true
type_eq parameter parameter = true
type_eq user_id user_id = true
type_eq ip ip = true
type_eq country country = true
type_eq time time = true
type_eq cohort cohort = true
type_eq (other s) (other t) = text_eq s t
type_eq _ _ = false

-- `Type == ""`
abbrev pub is_no_type : RuleType → Bool
is_no_type (other s) = is_empty s
is_no_type _ = false

pub record ActivationRule : Type 0 where
  pub kind : RuleType
  pub value : Text
  pub config : Text

abbrev pub attributes_prefix : Text
attributes_prefix = codes "attributes."

-- strings.TrimPrefix, after HasPrefix: what follows a prefix of that length.
abbrev pub after : Text → Text → Text
after [] s = s
after (p ∷ ps) [] = []
after (p ∷ ps) (c ∷ s) = after ps s

-- validContextKey
unfoldable pub valid_context_key : RuleType → Text → Bool
valid_context_key t key =
    if has_prefix key attributes_prefix
    then not (is_empty (after attributes_prefix key))
      && (type_eq t percentage || type_eq t parameter)
    else (type_eq t percentage && text_eq key (codes "rollout_key"))
      || (type_eq t user_id && text_eq key (codes "user_id"))
      || (type_eq t ip && text_eq key (codes "ip"))
      || (type_eq t country && text_eq key (codes "country"))
      || (type_eq t cohort && text_eq key (codes "cohort"))

-- ActivationRule.ContextKey: the key, and whether the configuration is usable.
-- `unmarshal` is json.Unmarshal into a struct of one field `context_key`, `none` on an error.
unfoldable pub context_key : (Text → Option Text) → ActivationRule → Text × Bool
context_key unmarshal r =
    if type_eq r.kind time
    then ([], is_empty r.config || text_eq (trim_space r.config) (codes "null"))
    else elim (unmarshal r.config) [
      | none ↦ ([], false)
      | some key ↦ if valid_context_key r.kind key then (key, true) else ([], false)
    ]

-- ActivationRule.IsEmpty
pub is_empty_rule : ActivationRule → Bool
is_empty_rule r = is_no_type r.kind && is_empty r.value

-- ActivationRule.IsValid
unfoldable pub is_valid_rule : ActivationRule → Bool
is_valid_rule r =
    if is_no_type r.kind
    then false
    else if type_eq r.kind cohort
    then true
    else not (is_empty r.value)
