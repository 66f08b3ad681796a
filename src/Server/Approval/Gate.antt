-- ===== src/Server/Approval/Gate.antt =====
-- server/internal/app/middleware/approval.go: which requests need an approval, with
-- infrastructure/database/approval_settings_repository.go, which stores the settings. The user of
-- gin's context has the type User or is missing, and what encoding/json finds in a body is a
-- parameter. The request that the middleware files for a user is left to the use case.
use to_toggle.Prelude.{
  Bool, true, false, not, ◌&&◌, ◌||◌, Option, none, some, List, [], ◌∷◌, Text, codes, text_eq,
  is_empty, has_prefix, if◌then◌else◌,
}
use to_toggle.Server.Db.{Fault, not_found, Answer, ok, err, and_then, Table, find_first}
use to_toggle.Server.User.{UserRole, root, admin, user, User, is_root}
use to_toggle.Server.Approval.{
  ActionType, toggle_create, toggle_update, toggle_delete, toggle_enable, toggle_disable,
  toggle_rule, application_create, application_update, application_delete, secret_key_create,
  secret_key_delete, other_action,
}
use to_toggle.Server.Approval.Settings.{
  ApprovalConfig, ApprovalSettings, new_approval_settings, requires_approval, validate_settings,
}
pub mod Settled
mod Tests

-- strings.Contains
unfoldable pub contains : Text → Text → Bool
contains [] w = is_empty w
contains (c ∷ s) w = has_prefix (c ∷ s) w || contains s w

-- strings.HasSuffix
unfoldable pub has_suffix : Text → Text → Bool
has_suffix [] w = is_empty w
has_suffix (c ∷ s) w = text_eq (c ∷ s) w || has_suffix s w

-- hasRequiredRole: the role of the user, and the one required.
unfoldable pub has_required_role : UserRole → UserRole → Bool
has_required_role have root = elim have [ root ↦ true | _ ↦ false ]
has_required_role have admin = elim have [ root ↦ true | admin ↦ true | _ ↦ false ]
has_required_role have user = true

-- What getActionType looks for in a body: the fields that are Booleans, and a rule that is not null.
pub record Body : Type 0 where
  pub enabled : Option Bool
  pub has_activation_rule : Option Bool
  pub activation_rule : Bool

-- The body is missing when it is no JSON object: peekJSONBody answers nil.
pub record Request : Type 0 where
  pub method : Text
  pub path : Text
  pub body : Option Body

unfoldable pub bulk_action : Option Body → ActionType
bulk_action none = toggle_disable
bulk_action (some b) = elim b.enabled [
  | none ↦ toggle_disable
  | some e ↦ if e then toggle_enable else toggle_disable
]

abbrev pub is_set : Option Bool → Bool
is_set none = false
is_set (some b) = b

unfoldable pub plural_action : Option Body → ActionType
plural_action none = toggle_update
plural_action (some b) =
    if is_set b.has_activation_rule
    then toggle_rule
    else if b.activation_rule
    then toggle_rule
    else toggle_update

unfoldable pub singular_action : Option Body → ActionType
singular_action none = toggle_update
singular_action (some b) = elim b.enabled [
  | none ↦ toggle_update
  | some e ↦ if e then toggle_enable else toggle_disable
]

-- getActionType
unfoldable pub get_action_type : Request → ActionType
unfolding contains has_suffix bulk_action plural_action singular_action
get_action_type r =
    let post = text_eq r.method (codes "POST") in
    let put = text_eq r.method (codes "PUT") in
    let delete = text_eq r.method (codes "DELETE") in
    let applications = contains r.path (codes "/applications") in
    let toggles = contains r.path (codes "/toggles") in
    if post && contains r.path (codes "/generate-secret")
    then secret_key_create
    else if delete && contains r.path (codes "/secret-keys/")
    then secret_key_delete
    else if post && (applications && not toggles)
    then application_create
    else if delete && (applications && not toggles)
    then application_delete
    else if put && (applications && not (contains r.path (codes "/toggle")))
    then application_update
    else if post && toggles
    then toggle_create
    else if delete && toggles
    then toggle_delete
    else if put && has_suffix r.path (codes "/toggles/bulk")
    then bulk_action r.body
    else if put && toggles
    then plural_action r.body
    else if put && contains r.path (codes "/toggle/")
    then singular_action r.body
    else other_action (codes "unknown")

-- What ApprovalAware does with a request.
pub data Verdict : Type 0 where
  passes unauthenticated forbidden : Verdict
  fails : Fault → Verdict
  asks_for : ActionType → Verdict

unfoldable pub by_role : UserRole → User → Verdict
unfolding has_required_role
by_role role u = if has_required_role u.role role then passes else forbidden

module _ {S : Type 0} (marshal : ApprovalConfig → Text) (unmarshal : Text → Option ApprovalConfig)
    (t : Table S ApprovalSettings) where
  -- A missing row of settings is created with the defaults.
  unfoldable pub or_default : Text → S × Answer ApprovalSettings → S × Answer ApprovalSettings
  unfolding and_then
  or_default ulid (s, ok x) = (s, ok x)
  or_default ulid (s, err not_found) =
      let x = new_approval_settings marshal unmarshal ulid in
      and_then (t.insert x s) (λ done s1. (s1, ok x))
  or_default ulid (s, err e) = (s, err e)

  -- approvalSettingsRepository.Get
  unfoldable pub get_settings : Text → S → S × Answer ApprovalSettings
  unfolding or_default find_first
  get_settings ulid s = or_default ulid (find_first t (λ x. true) s)

  unfoldable pub save_valid : Answer ApprovalSettings → S → S × Answer Unit
  save_valid (ok x) s = t.save x s
  save_valid (err e) s = (s, err e)

  -- approvalSettingsRepository.Update
  unfoldable pub update_settings : ApprovalSettings → S → S × Answer Unit
  unfolding validate_settings save_valid
  update_settings x s = save_valid (validate_settings marshal unmarshal x) s

  -- approvalSettingsRepository.IsApprovalEnabled
  unfoldable pub is_approval_enabled : Text → S → S × Answer Bool
  unfolding get_settings and_then
  is_approval_enabled ulid s = and_then (get_settings ulid s) (λ x s1. (s1, ok x.approval_enabled))

  -- approvalSettingsRepository.RequiresApproval
  unfoldable pub stored_requires_approval : Text → ActionType → S → S × Answer Bool
  unfolding get_settings requires_approval and_then
  stored_requires_approval ulid action s =
      and_then (get_settings ulid s)
        (λ x s1. (s1, ok (requires_approval marshal unmarshal x action)))

  unfoldable pub unless_required : UserRole → User → ActionType → S × Answer Bool → S × Verdict
  unfolding by_role
  unless_required role u action (s, ok true) = (s, asks_for action)
  unless_required role u action (s, ok false) = (s, by_role role u)
  unless_required role u action (s, err e) = (s, fails e)

  unfoldable pub if_enabled : Text → UserRole → User → Request → S × Answer Bool → S × Verdict
  unfolding unless_required stored_requires_approval get_action_type by_role
  if_enabled ulid role u r (s, ok true) =
      unless_required role u (get_action_type r)
        (stored_requires_approval ulid (get_action_type r) s)
  if_enabled ulid role u r (s, ok false) = (s, by_role role u)
  if_enabled ulid role u r (s, err e) = (s, by_role role u)

  -- ApprovalAware, given the ULID of settings that it may create.
  unfoldable pub approval_aware : Text → UserRole → Option User → Request → S → S × Verdict
  unfolding if_enabled is_approval_enabled
  approval_aware ulid role none r s = (s, unauthenticated)
  approval_aware ulid role (some u) r s =
      if is_root u then (s, passes) else if_enabled ulid role u r (is_approval_enabled ulid s)
