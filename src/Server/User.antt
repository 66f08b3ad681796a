-- ===== src/Server/User.antt =====
-- server/internal/app/domain/entity/user.go, the types of domain/entity/team.go, and
-- domain/policy/approval_access.go with the queries of team_approver_repository.go and
-- team_repository.go of infrastructure/database: who may act on an approval request, and who may
-- read it.
use to_toggle.Prelude.{
  Bool, true, false, ◌&&◌, Option, none, some, List, [], Text, text_eq, is_nil, map, any,
  if◌then◌else◌,
}
use to_toggle.Server.Db.{Fault, not_found, Answer, ok, err, and_then, Table, find_first}

pub data UserRole : Type 0 where
  root admin user : UserRole

pub record User : Type 0 where
  pub id : Text
  pub name : Text
  pub username : Text
  pub password : Text
  pub role : UserRole
  pub must_change_password : Bool
  pub active : Bool

abbrev pub is_root : User → Bool
is_root u = elim u.role [ root ↦ true | _ ↦ false ]

pub record TeamUser : Type 0 where
  pub team_id : Text
  pub user_id : Text
  pub is_approver : Bool

pub record Team : Type 0 where
  pub id : Text
  pub name : Text
  pub description : Text

-- A TeamPermissionLevel is any text. The three that are valid are told apart from the others.
pub data TeamPermissionLevel : Type 0 where
  permission_read permission_write permission_admin : TeamPermissionLevel
  other_permission : Text → TeamPermissionLevel

pub record TeamApplication : Type 0 where
  pub team_id : Text
  pub application_id : Text
  pub permission : TeamPermissionLevel

abbrev pub is_membership : Text → Text → TeamUser → Bool
is_membership team_id user_id m = text_eq m.team_id team_id && text_eq m.user_id user_id

abbrev pub unless_missing : Fault → Answer Bool
unless_missing not_found = ok false
unless_missing e = err e

-- The answer of a query whose missing row means `false`.
unfoldable pub approver_answer : {S : Type 0} → S × Answer TeamUser → S × Answer Bool
approver_answer (s, ok m) = (s, ok m.is_approver)
approver_answer (s, err e) = (s, unless_missing e)

-- The rows of an association, or none without a query when nothing is associated.
unfoldable pub preload : {S R : Type 0} → Table S R → (R → Bool) → Bool → S → S × Answer (List R)
preload t p nothing s = if nothing then (s, ok []) else t.find p s

module _ {S : Type 0} (members : Table S TeamUser) where
  -- teamApproverRepository.IsUserApprover
  unfoldable pub is_user_approver : Text → Text → S → S × Answer Bool
  unfolding approver_answer
  is_user_approver team_id user_id s =
      approver_answer (find_first members (is_membership team_id user_id) s)

  -- ApprovalAccess.CanAct
  unfoldable pub can_act : User → Text → S → S × Answer Bool
  unfolding is_user_approver
  can_act u team_id s = if is_root u then (s, ok true) else is_user_approver team_id u.id s

module _ {S : Type 0} (users : Table S User) (teams : Table S Team)
    (members : Table S TeamUser) where
  -- teamRepository.GetTeamsByUserID. A Preload is the query of its association and then that of the
  -- rows which it names.
  unfoldable pub get_teams_by_user_id : Text → S → S × Answer (List Team)
  unfolding and_then find_first preload
  get_teams_by_user_id user_id s =
      and_then (find_first users (λ u. text_eq u.id user_id) s) (λ u s1.
        and_then (members.find (λ m. text_eq m.user_id user_id) s1)
          (λ ms. preload teams (λ x. any (λ m. text_eq m.team_id x.id) ms) (is_nil ms)))

  -- ApprovalAccess.CanRead
  unfoldable pub can_read : User → Text → S → S × Answer Bool
  unfolding and_then get_teams_by_user_id
  can_read u team_id s =
      if is_root u
      then (s, ok true)
      else and_then (get_teams_by_user_id u.id s)
          (λ ts s'. (s', ok (any (λ x. text_eq x.id team_id) ts)))

  -- ApprovalAccess.VisibleTeamIDs. `none` is the nil slice.
  unfoldable pub visible_team_ids : User → S → S × Answer (Option (List Text) × Bool)
  unfolding and_then get_teams_by_user_id
  visible_team_ids u s =
      if is_root u
      then (s, ok (none, true))
      else and_then (get_teams_by_user_id u.id s)
          (λ ts s'. (s', ok (some (map (λ x. x.id) ts), false)))
