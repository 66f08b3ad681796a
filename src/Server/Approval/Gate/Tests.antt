-- ===== src/Server/Approval/Gate/Tests.antt =====
-- The settings of approvals and ApprovalAware at concrete inputs.
use to_toggle.Prelude.{
  ℕ, ◌≡◌, ◌≤◌, refl, ◌==◌, ◌&&◌, Bool, true, false, Option, none, some, List, [], ◌∷◌, Text, codes,
  text_eq, has_prefix, select, if◌then◌else◌,
}
use to_toggle.Server.Db.{database, ok, err, Table}
use to_toggle.Server.Db.Memory.{memory, memory-Lawful}
use to_toggle.Server.User.{UserRole, admin, User, is_root}
use to_toggle.Server.Approval.{
  toggle_enable, toggle_rule, toggle_update, secret_key_create, toggle_delete,
}
use to_toggle.Server.Approval.Settings.{
  ApprovalConfig, ApprovalSettings, UpdateRequest, pos, default_config, new_approval_settings,
  config_requires, apply_update,
}
use to_toggle.Server.Approval.Gate
use to_toggle.Server.Approval.Gate.Settled.{update_settings-approval_aware}

abbrev bit : Bool → ℕ
bit b = if b then 1 else 0

abbrev encode : ApprovalConfig → Text
encode c =
    bit c.on_toggle_create
    ∷ bit c.on_toggle_update
    ∷ bit c.on_toggle_delete
    ∷ bit c.on_toggle_enable
    ∷ bit c.on_toggle_disable
    ∷ bit c.on_toggle_rule
    ∷ bit c.on_application_create
    ∷ bit c.on_application_update
    ∷ bit c.on_application_delete
    ∷ bit c.on_secret_key_create
    ∷ bit c.on_secret_key_delete
    ∷ []

abbrev decode : Text → Option ApprovalConfig
decode (a ∷ b ∷ c ∷ d ∷ e ∷ f ∷ g ∷ h ∷ i ∷ j ∷ k ∷ []) = some (record {
  on_toggle_create = a == 1;
  on_toggle_update = b == 1;
  on_toggle_delete = c == 1;
  on_toggle_enable = d == 1;
  on_toggle_disable = e == 1;
  on_toggle_rule = f == 1;
  on_application_create = g == 1;
  on_application_update = h == 1;
  on_application_delete = i == 1;
  on_secret_key_create = j == 1;
  on_secret_key_delete = k == 1;
})
decode _ = none

bit-back : (b : Bool) → (bit b == 1) ≡ b
bit-back true = refl
bit-back false = refl

decode-encode : (c : ApprovalConfig) → decode (encode c) ≡ some c
decode-encode c = simp bit-back

abbrev new_settings : ApprovalSettings
new_settings = new_approval_settings encode decode (4 ∷ [])

abbrev change_settings : UpdateRequest
change_settings = record {
  approval_enabled = some true;
  required_actions = some default_config;
  default_expiration_days = some (pos 30);
}

abbrev changed_settings : ApprovalSettings
changed_settings = record new_settings { approval_enabled = true; default_expiration_days = pos 30 }

update-runs : apply_update encode decode change_settings new_settings ≡ ok changed_settings
unfolding apply_update
update-runs = refl

abbrev table : Table (List ApprovalSettings) ApprovalSettings
table = memory (λ x. x.id)

abbrev saved_settings : List ApprovalSettings
unfolding Gate.update_settings Gate.save_valid
saved_settings = (Gate.update_settings encode decode table changed_settings (new_settings ∷ [])).0

save-runs :
    (Gate.update_settings encode decode table changed_settings (new_settings ∷ [])).1 ≡ ok tt
unfolding Gate.update_settings Gate.save_valid
save-runs = refl

update_settings-approval_aware_example :
    ((n : ℕ) × (pos 30 ≡ pos n) × (1 ≤ n) × (n ≤ 30))
    × ((ulid : Text) (role : UserRole) (u : User) (r : Gate.Request)
        → (Gate.approval_aware encode decode table ulid role
            (some u)
            r
            (Gate.update_settings encode decode table changed_settings (new_settings ∷ [])).0).1
          ≡ (if is_root u
              then Gate.passes
              else if true && config_requires default_config (Gate.get_action_type r)
              then Gate.asks_for (Gate.get_action_type r)
              else Gate.by_role role u))
update_settings-approval_aware_example =
    update_settings-approval_aware encode decode table (memory-Lawful (λ x. x.id))
      (λ s. (select (λ x. true) s, refl)) decode-encode change_settings new_settings
      changed_settings default_config (new_settings ∷ []) refl refl update-runs save-runs

abbrev switch : Bool → Option Gate.Body
switch b = some (record { enabled = some b; has_activation_rule = none; activation_rule = false })

abbrev with_rule_body : Option Gate.Body
with_rule_body =
    some (record { enabled = some true; has_activation_rule = some true; activation_rule = true })

bulk_is_enable :
    Gate.get_action_type (record {
      method = codes "PUT";
      path = codes "/applications/a1/toggles/bulk";
      body = switch true;
    })
    ≡ toggle_enable
unfolding Gate.get_action_type text_eq has_prefix
bulk_is_enable = refl

plural_with_rule :
    Gate.get_action_type (record {
      method = codes "PUT";
      path = codes "/applications/a1/toggles/t1";
      body = with_rule_body;
    })
    ≡ toggle_rule
unfolding Gate.get_action_type text_eq has_prefix
plural_with_rule = refl

plural_without_rule :
    Gate.get_action_type (record {
      method = codes "PUT";
      path = codes "/applications/a1/toggles/t1";
      body = switch false;
    })
    ≡ toggle_update
unfolding Gate.get_action_type text_eq has_prefix
plural_without_rule = refl

key_is_created :
    Gate.get_action_type (record {
      method = codes "POST";
      path = codes "/applications/a1/generate-secret";
      body = none;
    })
    ≡ secret_key_create
unfolding Gate.get_action_type text_eq has_prefix
key_is_created = refl

abbrev deletion : Gate.Request
deletion = record {
  method = codes "DELETE";
  path = codes "/applications/a1/toggles/t1";
  body = none;
}

abbrev ana : User
ana = record {
  id = codes "u1";
  name = codes "Ana";
  username = codes "ana";
  password = [];
  role = admin;
  must_change_password = false;
  active = true;
}

-- With the default settings created and switched on, a deletion asks for an approval.
deletion_asks :
    (Gate.approval_aware encode decode table
      (codes "s")
      admin
      (some ana)
      deletion
      (changed_settings ∷ [])).1
    ≡ Gate.asks_for toggle_delete
unfolding Gate.approval_aware text_eq has_prefix
deletion_asks = refl

-- When the settings cannot be read, the role alone decides on the same deletion.
deletion_passes :
    (Gate.approval_aware encode decode
      (record table { find = λ p s. (s, err database) })
      (codes "s")
      admin
      (some ana)
      deletion
      (changed_settings ∷ [])).1
    ≡ Gate.passes
unfolding Gate.approval_aware text_eq has_prefix
deletion_passes = refl
