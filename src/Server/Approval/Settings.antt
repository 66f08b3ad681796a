-- ===== src/Server/Approval/Settings.antt =====
-- server/internal/app/domain/entity/approval_settings.go: which actions need an approval.
-- encoding/json is a parameter: an encoder of a configuration, and a decoder that may fail.
use to_toggle.Prelude.{
  ℕ, ◌≤◌, ◌≡◌, refl, Bool, true, false, not, ◌&&◌, ◌||◌, Option, none, some, Text, is_some, ltb,
  arith, if◌then◌else◌,
}
use to_toggle.Server.Db.{invalid, Answer, ok, err}
use to_toggle.Server.Approval.{
  ActionType, toggle_create, toggle_update, toggle_delete, toggle_enable, toggle_disable,
  toggle_rule, application_create, application_update, application_delete, secret_key_create,
  secret_key_delete, other_action,
}

-- A Go int.
pub data ℤ : Type 0 where
  pos negsuc : ℕ → ℤ

pub record ApprovalConfig : Type 0 where
  pub on_toggle_create : Bool
  pub on_toggle_update : Bool
  pub on_toggle_delete : Bool
  pub on_toggle_enable : Bool
  pub on_toggle_disable : Bool
  pub on_toggle_rule : Bool
  pub on_application_create : Bool
  pub on_application_update : Bool
  pub on_application_delete : Bool
  pub on_secret_key_create : Bool
  pub on_secret_key_delete : Bool

pub record ApprovalSettings : Type 0 where
  pub id : Text
  pub approval_enabled : Bool
  pub required_actions : Text
  pub default_expiration_days : ℤ

pub record UpdateRequest : Type 0 where
  pub approval_enabled : Option Bool
  pub required_actions : Option ApprovalConfig
  pub default_expiration_days : Option ℤ

-- The configuration of NewApprovalSettings.
abbrev pub default_config : ApprovalConfig
default_config = record {
  on_toggle_create = false;
  on_toggle_update = false;
  on_toggle_delete = true;
  on_toggle_enable = false;
  on_toggle_disable = false;
  on_toggle_rule = true;
  on_application_create = true;
  on_application_update = true;
  on_application_delete = true;
  on_secret_key_create = true;
  on_secret_key_delete = true;
}

-- The switch of RequiresApproval.
abbrev pub config_requires : ApprovalConfig → ActionType → Bool
config_requires c toggle_create = c.on_toggle_create
config_requires c toggle_update = c.on_toggle_update
config_requires c toggle_delete = c.on_toggle_delete
config_requires c toggle_enable = c.on_toggle_enable
config_requires c toggle_disable = c.on_toggle_disable
config_requires c toggle_rule = c.on_toggle_rule
config_requires c application_create = c.on_application_create
config_requires c application_update = c.on_application_update
config_requires c application_delete = c.on_application_delete
config_requires c secret_key_create = c.on_secret_key_create
config_requires c secret_key_delete = c.on_secret_key_delete
config_requires c (other_action a) = false

-- `days < 1 || days > 30`
abbrev pub out_of_range : ℤ → Bool
out_of_range (pos n) = ltb n 1 || ltb 30 n
out_of_range (negsuc n) = true

days_within : (d : ℤ) → out_of_range d ≡ false → (n : ℕ) × (d ≡ pos n) × (1 ≤ n) × (n ≤ 30)
days_within (pos n) h = (n, refl, ground (arith, h), ground (arith, h))
days_within (negsuc n) h = cc

module _ (marshal : ApprovalConfig → Text) (unmarshal : Text → Option ApprovalConfig) where
  -- NewApprovalSettings
  abbrev pub new_approval_settings : Text → ApprovalSettings
  new_approval_settings ulid = record {
    id = ulid;
    approval_enabled = false;
    required_actions = marshal default_config;
    default_expiration_days = pos 7;
  }

  -- ApprovalSettings.RequiresApproval
  unfoldable pub requires_approval : ApprovalSettings → ActionType → Bool
  requires_approval settings action =
      if not settings.approval_enabled then false else elim (unmarshal settings.required_actions) [
        | none ↦ false
        | some c ↦ config_requires c action
      ]

  -- ApprovalSettings.Validate
  unfoldable pub validate_settings : ApprovalSettings → Answer ApprovalSettings
  validate_settings settings =
      if out_of_range settings.default_expiration_days
      then err (invalid "default_expiration_days must be between 1 and 30")
      else if is_some (unmarshal settings.required_actions)
      then ok settings
      else err (invalid "invalid required_actions format")

  -- ApprovalSettings.ApplyUpdate: its three parts, and the validation of what they leave.
  unfoldable pub set_enabled : Option Bool → ApprovalSettings → ApprovalSettings
  set_enabled none settings = settings
  set_enabled (some b) settings = record settings { approval_enabled = b }

  unfoldable pub set_required_actions : Option ApprovalConfig → ApprovalSettings → ApprovalSettings
  set_required_actions none settings = settings
  set_required_actions (some c) settings = record settings { required_actions = marshal c }

  unfoldable pub set_expiration_days : Option ℤ → ApprovalSettings → Answer ApprovalSettings
  set_expiration_days none settings = ok settings
  set_expiration_days (some days) settings =
      if out_of_range days
      then err (invalid "expiration days must be between 1 and 30")
      else ok (record settings { default_expiration_days = days })

  unfoldable pub apply_update : UpdateRequest → ApprovalSettings → Answer ApprovalSettings
  unfolding set_enabled set_required_actions set_expiration_days validate_settings
  apply_update req settings =
      elim (set_expiration_days req.default_expiration_days
        (set_required_actions req.required_actions (set_enabled req.approval_enabled settings))) [
          | ok updated ↦ validate_settings updated
          | err e ↦ err e
        ]

  -- An update that is accepted leaves between one and thirty days, and if it names a configuration
  -- then exactly the actions of that one need an approval, as long as approval is enabled. The
  -- decoder reads back what the encoder wrote.
  pub apply_update-requires_approval :
      ((c : ApprovalConfig) → unmarshal (marshal c) ≡ some c)
      → (req : UpdateRequest) (settings updated : ApprovalSettings) (c : ApprovalConfig)
      → req.required_actions ≡ some c
      → apply_update req settings ≡ ok updated
      → ((n : ℕ) × (updated.default_expiration_days ≡ pos n) × (1 ≤ n) × (n ≤ 30))
        × ((action : ActionType)
            → requires_approval updated action
              ≡ (updated.approval_enabled && config_requires c action))
  unfolding apply_update requires_approval
  apply_update-requires_approval back req settings updated c named h =
      let decoded = back c in
      (
        days_within updated.default_expiration_days (ground (arith, named, h)),
        λ action. ground (arith, named, h, decoded),
      )
