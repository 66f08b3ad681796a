-- ===== src/Server/Toggles.antt =====
-- server/internal/app/domain/entity/toggle.go, the creation of usecase/toggle_usecase.go and the
-- queries that it makes in infrastructure/database/toggle_repository.go. The table holds the toggles
-- that are not deleted: gorm adds that condition to every query (Archive has the deleted ones too). ULIDs are a parameter. gorm's
-- relations, its columns of times and the columns of deletion are left out.
use to_toggle.Prelude.{
  ℕ, zero, ◌+◌, Bool, true, false, not, ◌&&◌, Option, none, some, List, [], ◌∷◌, ◌++◌, Text,
  text_eq, is_empty, is_nil, split, join, if◌then◌else◌,
}
use to_toggle.Server.Db.{
  Fault, database, not_found, invalid, Answer, ok, err, and_then, Table, find_first, rename_error,
  if_found,
}
use to_toggle.Server.Approval.Workflow.{Named}
pub mod Creation
pub mod Ancestors
pub mod Status
pub mod Levels
pub mod Walks
pub mod Placing
pub mod Archive
pub mod Changes
pub mod StoredRules
mod Tests

pub record ActivationRule : Type 0 where
  pub kind : Text
  pub value : Text
  pub config : Text

pub record Toggle : Type 0 where
  pub id : Text
  pub value : Text
  pub enabled : Bool
  pub path : Text
  pub level : ℕ
  pub parent_id : Option Text
  pub app_id : Text
  pub has_activation_rule : Bool
  pub activation_rule : Option ActivationRule

-- NewToggle, before it is stored
abbrev pub new_toggle : Text → Text → Bool → Text → ℕ → Option Text → Text → Toggle
new_toggle ulid value enabled path level parent_id app_id = record {
  id = ulid;
  value = value;
  enabled = enabled;
  path = path;
  level = level;
  parent_id = parent_id;
  app_id = app_id;
  has_activation_rule = false;
  activation_rule = none;
}

-- What gorm stores when it inserts a toggle. The column of `enabled` is tagged `default:true`, and an
-- insert gives a column with a default this default where the field is the zero value of its type:
-- a toggle is stored enabled whichever value it was made with. The other defaults are zero values.
abbrev pub with_defaults : Toggle → Toggle
with_defaults x = record x { enabled = true }

-- ParseTogglePath
abbrev pub parse_toggle_path : Text → List Text
parse_toggle_path path = split 46 path

abbrev pub has_path : Text → Text → Toggle → Bool
has_path path app_id t = text_eq t.path path && text_eq t.app_id app_id

module _ {S : Type 0} (t : Table S Toggle) where
  -- ToggleRepositoryImpl.GetByPath
  unfoldable pub get_by_path : Text → Text → S → S × Answer Toggle
  get_by_path path app_id s = find_first t (has_path path app_id) s

  -- ToggleRepositoryImpl.Exists
  unfoldable pub exists : Text → Text → S → S × Answer Bool
  unfolding and_then
  exists path app_id s =
      and_then (t.find (has_path path app_id) s) (λ l s'. (s', ok (not (is_nil l))))

  -- ToggleUseCase.createToggleHierarchy, on the parts before the level and those from it on. The
  -- recursive call on no parts returns at once, where the code does not make it.
  unfoldable pub create_toggle_hierarchy :
      (ℕ → Text) → Bool → Text → List Text → List Text → Option Text → ℕ → S → S × Answer Unit
  unfolding get_by_path if_found rename_error and_then
  create_toggle_hierarchy ulids enabled app_id before [] parent_id level s = (s, ok tt)
  create_toggle_hierarchy ulids enabled app_id before (part ∷ rest) parent_id level s =
      let here = before ++ (part ∷ []) in
      let path = join 46 here in
      let toggle = with_defaults (
        new_toggle (ulids level) part (if is_nil rest then enabled else true) path level parent_id
          app_id) in
      if_found (get_by_path path app_id s)
        (λ existing s1.
          create_toggle_hierarchy ulids enabled app_id here rest (some existing.id) (level + 1) s1)
        (λ s1. and_then (rename_error database (t.insert toggle s1)) (λ u s2.
          create_toggle_hierarchy ulids enabled app_id here rest (some toggle.id) (level + 1) s2))

  unfoldable pub create_unless : (ℕ → Text) → Text → Bool → Text → Bool → S → S × Answer Unit
  unfolding create_toggle_hierarchy
  create_unless ulids path enabled app_id there s =
      if there
      then (s, err (invalid "toggle already exists"))
      else create_toggle_hierarchy ulids enabled app_id [] (parse_toggle_path path) none 0 s

  unfoldable pub create_in_application :
      Table S Named → (ℕ → Text) → Text → Bool → Text → S → S × Answer Unit
  unfolding exists create_unless rename_error and_then
  create_in_application applications ulids path enabled app_id s =
      and_then (rename_error not_found (find_first applications (λ a. text_eq a.id app_id) s))
        (λ a s1.
          and_then (rename_error database (exists path app_id s1))
            (λ there s2. create_unless ulids path enabled app_id there s2))

  -- ToggleUseCase.CreateToggle
  unfoldable pub create_toggle :
      Table S Named → (ℕ → Text) → Text → Bool → Text → S → S × Answer Unit
  unfolding create_in_application
  create_toggle applications ulids path enabled app_id s =
      if is_empty path
      then (s, err (invalid "toggle path is required"))
      else if is_empty app_id
      then (s, err (invalid "application ID is required"))
      else create_in_application applications ulids path enabled app_id s
