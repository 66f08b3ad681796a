-- ===== src/Server/Approval/Filing.antt =====
-- The team under which the middleware of server/internal/app/middleware/approval.go files a request
-- for an approval: determineTeamID, GetUserTeamForApplication of usecase/approval_usecase.go and the
-- queries of infrastructure/database/team_repository.go.
use to_toggle.Prelude.{
  ℕ, Bool, not, Option, none, some, List, [], ◌∷◌, Text, codes, text_eq, is_empty, is_nil, any,
  if◌then◌else◌,
}
use to_toggle.Server.Db.{Fault, invalid, Answer, ok, err, and_then, Table, find_first}
use to_toggle.Server.User.{User, TeamUser, Team, TeamApplication, preload, get_teams_by_user_id}
use to_toggle.Server.Approval.{
  ActionType, toggle_create, toggle_update, toggle_delete, toggle_enable, toggle_disable,
  toggle_rule, application_create, application_update, application_delete, secret_key_create,
  secret_key_delete, other_action,
}
use to_toggle.Server.Approval.Workflow.{Named}
mod Tests

-- The tables that the queries read.
pub record TeamTables (S : Type 0) : Type 0 where
  pub users : Table S User
  pub teams : Table S Team
  pub members : Table S TeamUser
  pub team_applications : Table S TeamApplication
  pub applications : Table S Named

module _ {S : Type 0} (db : TeamTables S) where
  -- teamRepository.GetApplicationsByTeamID
  unfoldable pub get_applications_by_team_id : Text → S → S × Answer (List Named)
  unfolding and_then find_first preload
  get_applications_by_team_id team_id s =
      and_then (find_first db.teams (λ x. text_eq x.id team_id) s) (λ x s1.
        and_then (db.team_applications.find (λ m. text_eq m.team_id team_id) s1) (λ ms.
          preload db.applications (λ a. any (λ m. text_eq m.application_id a.id) ms) (is_nil ms)))

  -- teamRepository.GetTeamsByApplicationID
  unfoldable pub get_teams_by_application_id : Text → S → S × Answer (List Team)
  unfolding and_then find_first preload
  get_teams_by_application_id application_id s =
      and_then (find_first db.applications (λ a. text_eq a.id application_id) s) (λ a s1.
        and_then (db.team_applications.find (λ m. text_eq m.application_id application_id) s1)
          (λ ms. preload db.teams (λ x. any (λ m. text_eq m.team_id x.id) ms) (is_nil ms)))

  -- One round of the loop: an error is passed over.
  unfoldable pub if_team_has :
      Text → Text → (S → S × Option Text) → S × Answer (List Named) → S × Option Text
  if_team_has app_id team_id rest (s, err e) = rest s
  if_team_has app_id team_id rest (s, ok apps) =
      if any (λ a. text_eq a.id app_id) apps then (s, some team_id) else rest s

  unfoldable pub team_with_application : Text → List Team → S → S × Option Text
  unfolding if_team_has get_applications_by_team_id
  team_with_application app_id [] s = (s, none)
  team_with_application app_id (x ∷ xs) s =
      if_team_has app_id x.id (team_with_application app_id xs) (get_applications_by_team_id x.id s)

  abbrev pub or_first_team : Text → S × Option Text → S × Answer Text
  or_first_team first (s, some team_id) = (s, ok team_id)
  or_first_team first (s, none) = (s, ok first)

  unfoldable pub team_of : Text → List Team → S → S × Answer Text
  unfolding team_with_application
  team_of app_id [] s = (s, err (invalid "user has no teams assigned"))
  team_of app_id (x ∷ xs) s =
      if is_empty app_id
      then (s, ok x.id)
      else or_first_team x.id (team_with_application app_id (x ∷ xs) s)

  -- ApprovalUseCase.GetUserTeamForApplication
  unfoldable pub get_user_team_for_application : Text → Text → S → S × Answer Text
  unfolding get_teams_by_user_id team_of and_then
  get_user_team_for_application user_id app_id s =
      and_then (get_teams_by_user_id db.users db.teams db.members user_id s)
        (λ teams s1. team_of app_id teams s1)

  unfoldable pub team_for : Option Text → Text → S → S × Answer Text
  unfolding get_user_team_for_application
  team_for none user_id s = (s, err (invalid "application ID is required"))
  team_for (some app_id) user_id s = get_user_team_for_application user_id app_id s

  -- The team that the body names, for an application that does not exist yet.
  unfoldable pub named_team : Option Text → S → S × Answer Text
  named_team none s = (s, err (invalid "team_id is required to create an application"))
  named_team (some team_id) s =
      if is_empty team_id
      then (s, err (invalid "team_id is required to create an application"))
      else (s, ok team_id)

  -- determineTeamID, on the team_id that the body of the request has, if it has one.
  unfoldable pub determine_team_id :
      ActionType → Option Text → Option Text → Text → S → S × Answer Text
  unfolding team_for named_team
  determine_team_id toggle_create body_team app user_id s = team_for app user_id s
  determine_team_id toggle_update body_team app user_id s = team_for app user_id s
  determine_team_id toggle_delete body_team app user_id s = team_for app user_id s
  determine_team_id toggle_enable body_team app user_id s = team_for app user_id s
  determine_team_id toggle_disable body_team app user_id s = team_for app user_id s
  determine_team_id toggle_rule body_team app user_id s = team_for app user_id s
  determine_team_id application_update body_team app user_id s = team_for app user_id s
  determine_team_id application_delete body_team app user_id s = team_for app user_id s
  determine_team_id application_create body_team app user_id s = named_team body_team s
  determine_team_id secret_key_create body_team app user_id s = team_for app user_id s
  determine_team_id secret_key_delete body_team app user_id s = team_for app user_id s
  determine_team_id (other_action a) body_team app user_id s =
      (s, err (invalid "unknown action type for team determination"))
