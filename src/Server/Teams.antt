-- ===== src/Server/Teams.antt =====
-- server/internal/app/usecase/team_usecase.go with the Validate and ValidatePermission of
-- domain/entity/team.go, and infrastructure/database/team_repository.go: the teams, their members,
-- and what they may do with an application. The counts of the browser's lists are left out.
use to_toggle.Prelude.{
  ℕ, Bool, true, false, not, ◌&&◌, ◌||◌, Option, none, some, List, [], ◌∷◌, Text, text_eq, is_empty,
  is_nil, len, ltb, any, if◌then◌else◌,
}
use to_toggle.Server.Db.{
  Fault, database, invalid, Answer, ok, err, and_then, rename_error, find_first,
}
use to_toggle.Server.User.{
  User, TeamUser, is_membership, Team, TeamApplication, TeamPermissionLevel, permission_read,
  permission_write, permission_admin, other_permission, preload, get_teams_by_user_id,
}
use to_toggle.Server.Auth.{get_user}
use to_toggle.Server.Approval.Workflow.{Named}
use to_toggle.Server.Approval.Filing.{
  TeamTables, get_applications_by_team_id, get_teams_by_application_id,
}
pub mod Permissions
pub mod Reads
pub mod Membership
pub mod Access
pub mod Deletion
pub mod Stored
mod Tests

-- Team.Validate
unfoldable pub validate_team : Team → Answer Unit
unfolding len
validate_team x =
    if is_empty x.name
    then err (invalid "team name is required")
    else if ltb (len x.name) 2
    then err (invalid "team name must be at least 2 characters long")
    else if ltb 100 (len x.name)
    then err (invalid "team name must be at most 100 characters long")
    else if ltb 500 (len x.description)
    then err (invalid "team description must be at most 500 characters long")
    else ok tt

-- ValidatePermission
abbrev pub validate_permission : TeamPermissionLevel → Answer Unit
validate_permission permission_read = ok tt
validate_permission permission_write = ok tt
validate_permission permission_admin = ok tt
validate_permission (other_permission t) = err (invalid "invalid permission level")

-- The rows of a query that go through rows.Next: each is scanned or not, and the rows end, or break
-- off with an error that only rows.Err would tell.
pub data Rows : Type 0 where
  rows_end : Rows
  rows_broken : Rows
  rows_next : Option TeamPermissionLevel → Rows → Rows

-- The loop of GetUserTeamApplicationPermissions over the rows, which does not ask rows.Err.
unfoldable pub put_permission :
    TeamPermissionLevel → Answer (List TeamPermissionLevel) → Answer (List TeamPermissionLevel)
put_permission p (ok ps) = ok (p ∷ ps)
put_permission p (err e) = err e

unfoldable pub scan_permissions : Rows → Answer (List TeamPermissionLevel)
unfolding put_permission
scan_permissions rows_end = ok []
scan_permissions rows_broken = ok []
scan_permissions (rows_next none rs) = err database
scan_permissions (rows_next (some p) rs) = put_permission p (scan_permissions rs)

-- The statements of the repository that are not on one table: the append to an association, and
-- the query that joins team_applications with team_users.
pub record TeamStatements (S : Type 0) : Type 0 where
  pub append_member : Text → Text → S → S × Answer Unit
  pub permissions_of : Text → Text → S → S × Answer Rows

abbrev pub is_admin : TeamPermissionLevel → Bool
is_admin p = elim p [ permission_admin ↦ true | _ ↦ false ]

abbrev pub is_write : TeamPermissionLevel → Bool
is_write p = elim p [ permission_write ↦ true | _ ↦ false ]

abbrev pub is_read : TeamPermissionLevel → Bool
is_read p = elim p [ permission_read ↦ true | _ ↦ false ]

-- The loop of UserCanAccessApplication, from the highest permission so far.
unfoldable pub highest_permission :
    TeamPermissionLevel → List TeamPermissionLevel → TeamPermissionLevel
highest_permission h [] = h
highest_permission h (p ∷ ps) =
    let rest = highest_permission (if is_write p && is_read h then permission_write else h) ps in
    if is_admin p then permission_admin else rest

unfoldable pub access_of : List TeamPermissionLevel → Option TeamPermissionLevel
unfolding highest_permission
access_of [] = none
access_of (p ∷ ps) = some (highest_permission p (p ∷ ps))

abbrev pub may_modify : Option TeamPermissionLevel → Bool
may_modify none = false
may_modify (some p) = is_write p || is_admin p

abbrev pub may_administer : Option TeamPermissionLevel → Bool
may_administer none = false
may_administer (some p) = is_admin p

module _ {S : Type 0} (db : TeamTables S) (more : TeamStatements S) where
  -- Preload("Users") and Preload("Applications") of a team that was found.
  unfoldable pub with_associations : Team → S → S × Answer Team
  unfolding and_then preload
  with_associations x s = and_then (db.members.find (λ m. text_eq m.team_id x.id) s) (λ ms s1.
      and_then (preload db.users (λ u. any (λ m. text_eq m.user_id u.id) ms) (is_nil ms) s1)
        (λ us s2. and_then (db.team_applications.find (λ m. text_eq m.team_id x.id) s2) (λ tas s3.
          and_then
            (preload db.applications (λ a. any (λ m. text_eq m.application_id a.id) tas)
              (is_nil tas) s3)
            (λ apps s4. (s4, ok x)))))

  -- teamRepository.GetByID, GetByName
  unfoldable pub get_team_by_id : Text → S → S × Answer Team
  unfolding and_then find_first with_associations
  get_team_by_id id s =
      and_then (find_first db.teams (λ x. text_eq x.id id) s) (λ x. with_associations x)

  unfoldable pub get_team_by_name : Text → S → S × Answer Team
  unfolding and_then find_first with_associations
  get_team_by_name name s =
      and_then (find_first db.teams (λ x. text_eq x.name name) s) (λ x. with_associations x)

  abbrev pub get_application : Text → S → S × Answer Named
  get_application id s = find_first db.applications (λ a. text_eq a.id id) s

  -- The checks that a team, and a user or an application, exist.
  abbrev pub existing_team : Text → S → S × Answer Team
  existing_team id s = rename_error (invalid "team not found") (get_team_by_id id s)

  abbrev pub existing_user : Text → S → S × Answer User
  existing_user id s = rename_error (invalid "user not found") (get_user db.users id s)

  abbrev pub existing_application : Text → S → S × Answer Named
  existing_application id s = rename_error (invalid "application not found") (get_application id s)

  -- A name that `p` says is taken by the team that was read under it, if one was read.
  abbrev pub name_taken : (Team → Bool) → Answer Team → Bool
  name_taken p (ok other) = p other
  name_taken p (err e) = false

  unfoldable pub store_team :
      (Team → Bool) → Team → (S → S × Answer Unit) → S × Answer Team → S × Answer Unit
  unfolding validate_team and_then
  store_team p x write found =
      if name_taken p found.1
      then (found.0, err (invalid "team name already exists"))
      else and_then (found.0, validate_team x) (λ done. write)

  -- TeamUseCase.CreateTeam, of a team with its ULID.
  unfoldable pub create_team : Team → S → S × Answer Unit
  unfolding store_team get_team_by_name
  create_team x s = store_team (λ other. true) x (db.teams.insert x) (get_team_by_name x.name s)

  -- TeamUseCase.UpdateTeam
  unfoldable pub update_team : Team → S → S × Answer Unit
  unfolding store_team get_team_by_name get_team_by_id and_then rename_error
  update_team x s = and_then (existing_team x.id s) (λ old s1.
      if text_eq old.name x.name
      then and_then (s1, validate_team x) (λ done. db.teams.save x)
      else store_team (λ other. not (text_eq other.id x.id)) x (db.teams.save x)
          (get_team_by_name x.name s1))

  -- teamRepository.Delete
  unfoldable pub delete_team_rows : Text → S → S × Answer Unit
  unfolding and_then
  delete_team_rows id s = and_then (db.members.delete_where (λ m. text_eq m.team_id id) s) (λ a s1.
      and_then (db.team_applications.delete_where (λ m. text_eq m.team_id id) s1)
        (λ b. db.teams.delete id))

  -- TeamUseCase.DeleteTeam
  unfoldable pub delete_team : Text → S → S × Answer Unit
  unfolding delete_team_rows get_team_by_id and_then rename_error
  delete_team id s =
      if is_empty id
      then (s, err (invalid "team ID is required"))
      else and_then (existing_team id s) (λ x. delete_team_rows id)

  -- teamRepository.AddUserToTeam
  unfoldable pub append_user : Text → Text → S → S × Answer Unit
  unfolding and_then find_first
  append_user team_id user_id s =
      and_then (find_first db.teams (λ x. text_eq x.id team_id) s)
        (λ x s1. and_then (get_user db.users user_id s1) (λ u. more.append_member team_id user_id))

  -- TeamUseCase.AddUserToTeam
  unfoldable pub add_user_to_team : Text → Text → S → S × Answer Unit
  unfolding append_user get_team_by_id get_teams_by_user_id and_then rename_error find_first
  add_user_to_team team_id user_id s =
      if is_empty team_id || is_empty user_id
      then (s, err (invalid "team ID and user ID are required"))
      else and_then (existing_team team_id s) (λ x s1. and_then (existing_user user_id s1) (λ u s2.
        and_then (get_teams_by_user_id db.users db.teams db.members user_id s2) (λ teams s3.
          if any (λ t. text_eq t.id team_id) teams
          then (s3, err (invalid "user is already a member of this team"))
          else append_user team_id user_id s3)))

  -- teamRepository.RemoveUserFromTeam
  unfoldable pub remove_member : Text → Text → S → S × Answer Unit
  unfolding and_then find_first
  remove_member team_id user_id s =
      and_then (find_first db.teams (λ x. text_eq x.id team_id) s) (λ x s1.
        and_then (get_user db.users user_id s1)
          (λ u. db.members.delete_where (is_membership team_id user_id)))

  -- TeamUseCase.RemoveUserFromTeam
  unfoldable pub remove_user_from_team : Text → Text → S → S × Answer Unit
  unfolding remove_member get_team_by_id and_then rename_error find_first
  remove_user_from_team team_id user_id s =
      if is_empty team_id || is_empty user_id
      then (s, err (invalid "team ID and user ID are required"))
      else and_then (existing_team team_id s)
          (λ x s1. and_then (existing_user user_id s1) (λ u. remove_member team_id user_id))

  abbrev pub is_association : Text → Text → TeamApplication → Bool
  is_association team_id app_id m = text_eq m.team_id team_id && text_eq m.application_id app_id

  -- teamRepository.AddApplicationToTeam, RemoveApplicationFromTeam, UpdateApplicationPermission
  abbrev pub insert_association : Text → Text → TeamPermissionLevel → S → S × Answer Unit
  insert_association team_id app_id p s =
      db.team_applications.insert
        (record { team_id = team_id; application_id = app_id; permission = p }) s

  abbrev pub remove_association : Text → Text → S → S × Answer Unit
  remove_association team_id app_id s =
      db.team_applications.delete_where (is_association team_id app_id) s

  abbrev pub update_association : Text → Text → TeamPermissionLevel → S → S × Answer Unit
  update_association team_id app_id p s =
      db.team_applications.update (is_association team_id app_id) (λ m. record m { permission = p })
        s

  -- The checks that the calls on a team and an application have in common.
  unfoldable pub for_team_and_application :
      Text → Text → (S → S × Answer Unit) → S → S × Answer Unit
  unfolding get_team_by_id and_then rename_error find_first
  for_team_and_application team_id app_id f s =
      and_then (existing_team team_id s)
        (λ x s1. and_then (existing_application app_id s1) (λ a. f))

  -- TeamUseCase.AddApplicationToTeam
  unfoldable pub add_application_to_team : Text → Text → TeamPermissionLevel → S → S × Answer Unit
  unfolding for_team_and_application get_applications_by_team_id and_then
  add_application_to_team team_id app_id p s =
      if is_empty team_id || is_empty app_id
      then (s, err (invalid "team ID and application ID are required"))
      else and_then (s, validate_permission p)
          (λ done. for_team_and_application team_id app_id (λ s1.
            and_then (get_applications_by_team_id db team_id s1) (λ apps s2.
              if any (λ a. text_eq a.id app_id) apps
              then (s2, err (invalid "application is already associated with this team"))
              else insert_association team_id app_id p s2)))

  -- TeamUseCase.RemoveApplicationFromTeam
  unfoldable pub remove_application_from_team : Text → Text → S → S × Answer Unit
  unfolding for_team_and_application
  remove_application_from_team team_id app_id s =
      if is_empty team_id || is_empty app_id
      then (s, err (invalid "team ID and application ID are required"))
      else for_team_and_application team_id app_id (remove_association team_id app_id) s

  unfoldable pub remove_from_each : Text → List Team → S → S × Answer Unit
  unfolding and_then rename_error
  remove_from_each app_id [] s = (s, ok tt)
  remove_from_each app_id (x ∷ xs) s =
      and_then
        (rename_error (invalid "error removing application from team")
          (remove_association x.id app_id s))
        (λ done. remove_from_each app_id xs)

  -- TeamUseCase.RemoveApplicationFromAllTeams
  unfoldable pub remove_application_from_all_teams : Text → S → S × Answer Unit
  unfolding remove_from_each get_teams_by_application_id and_then rename_error find_first
  remove_application_from_all_teams app_id s =
      if is_empty app_id
      then (s, err (invalid "application ID is required"))
      else and_then (existing_application app_id s) (λ a s1.
        and_then
          (rename_error (invalid "error getting teams for application")
            (get_teams_by_application_id db app_id s1))
          (λ teams. remove_from_each app_id teams))

  -- teamRepository.GetTeamApplicationPermission
  unfoldable pub get_team_application_permission : Text → Text → S → S × Answer TeamPermissionLevel
  unfolding and_then find_first
  get_team_application_permission team_id app_id s =
      and_then (find_first db.team_applications (is_association team_id app_id) s)
        (λ m s1. (s1, ok m.permission))

  -- TeamUseCase.UpdateApplicationPermission
  unfoldable pub update_application_permission :
      Text → Text → TeamPermissionLevel → S → S × Answer Unit
  unfolding for_team_and_application get_team_application_permission and_then rename_error
  update_application_permission team_id app_id p s =
      if is_empty team_id || is_empty app_id
      then (s, err (invalid "team ID and application ID are required"))
      else and_then (s, validate_permission p)
          (λ done. for_team_and_application team_id app_id (λ s1.
            and_then
              (rename_error (invalid "application is not associated with this team")
                (get_team_application_permission team_id app_id s1))
              (λ old. update_association team_id app_id p)))

  -- teamRepository.GetUserTeamApplicationPermissions
  unfoldable pub joined_permissions : Text → Text → S → S × Answer (List TeamPermissionLevel)
  unfolding and_then scan_permissions
  joined_permissions user_id app_id s =
      and_then (more.permissions_of user_id app_id s) (λ rs s1. (s1, scan_permissions rs))

  -- TeamUseCase.GetUserApplicationPermissions
  unfoldable pub get_user_application_permissions :
      Text → Text → S → S × Answer (List TeamPermissionLevel)
  unfolding joined_permissions and_then rename_error find_first
  get_user_application_permissions user_id app_id s =
      if is_empty user_id || is_empty app_id
      then (s, err (invalid "user ID and application ID are required"))
      else and_then (existing_user user_id s) (λ u s1.
        and_then (existing_application app_id s1) (λ a. joined_permissions user_id app_id))

  -- TeamUseCase.UserCanAccessApplication: the highest permission, or none without access.
  unfoldable pub user_can_access_application :
      Text → Text → S → S × Answer (Option TeamPermissionLevel)
  unfolding get_user_application_permissions access_of and_then
  user_can_access_application user_id app_id s =
      and_then (get_user_application_permissions user_id app_id s)
        (λ ps s1. (s1, ok (access_of ps)))

  -- TeamUseCase.UserCanModifyApplication, UserCanAdminApplication
  unfoldable pub user_can_modify_application : Text → Text → S → S × Answer Bool
  unfolding user_can_access_application and_then
  user_can_modify_application user_id app_id s =
      and_then (user_can_access_application user_id app_id s) (λ a s1. (s1, ok (may_modify a)))

  unfoldable pub user_can_admin_application : Text → Text → S → S × Answer Bool
  unfolding user_can_access_application and_then
  user_can_admin_application user_id app_id s =
      and_then (user_can_access_application user_id app_id s) (λ a s1. (s1, ok (may_administer a)))
