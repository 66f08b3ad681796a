-- ===== src/Server/Approval/Filing/Tests.antt =====
-- The team of a request on a small database.
use to_toggle.Prelude.{
  ◌≡◌, refl, none, some, List, [], ◌∷◌, Text, codes, text_eq, ◌++◌, true, false,
}
use to_toggle.Server.Db.{ok, find_first}
use to_toggle.Server.User.{User, TeamUser, Team, TeamApplication, permission_write, admin}
use to_toggle.Server.Approval.{toggle_update, application_create}
use to_toggle.Server.Approval.Workflow.{Named}
use to_toggle.Server.Approval.Sample.{part}
use to_toggle.Server.Approval.Filing.{TeamTables, determine_team_id}

record Teams : Type 0 where
  users : List User
  teams : List Team
  members : List TeamUser
  team_applications : List TeamApplication
  applications : List Named

abbrev tables : TeamTables Teams
tables = record {
  users = part (λ u. u.id) (λ d. d.users) (λ l d. record d { users = l });
  teams = part (λ x. x.id) (λ d. d.teams) (λ l d. record d { teams = l });
  members = part (λ m. m.team_id ++ m.user_id) (λ d. d.members) (λ l d. record d { members = l });
  team_applications =
      part (λ m. m.team_id ++ m.application_id) (λ d. d.team_applications)
        (λ l d. record d { team_applications = l });
  applications = part (λ a. a.id) (λ d. d.applications) (λ l d. record d { applications = l });
}

abbrev ana : User
ana = record {
  id = codes "u";
  name = codes "Ana";
  username = codes "ana";
  password = [];
  role = admin;
  must_change_password = false;
  active = true;
}

abbrev member_of : Text → TeamUser
member_of team_id = record { team_id = team_id; user_id = codes "u"; is_approver = false }

-- Ana is in the teams p and q, and q has the application a.
abbrev two_teams : Teams
two_teams = record {
  users = ana ∷ [];
  teams =
      record { id = codes "p"; name = []; description = [] }
      ∷ record { id = codes "q"; name = []; description = [] }
      ∷ [];
  members = member_of (codes "p") ∷ member_of (codes "q") ∷ [];
  team_applications =
      record { team_id = codes "q"; application_id = codes "a"; permission = permission_write }
      ∷ [];
  applications = record { id = codes "a"; label = [] } ∷ [];
}

second_team_has_it :
    (determine_team_id tables toggle_update none (some (codes "a")) (codes "u") two_teams).1
    ≡ ok (codes "q")
unfolding determine_team_id find_first text_eq
second_team_has_it = refl

-- No team of the user has the application: the first one is taken.
no_team_has_it :
    (determine_team_id tables toggle_update none (some (codes "b")) (codes "u") two_teams).1
    ≡ ok (codes "p")
unfolding determine_team_id find_first text_eq
no_team_has_it = refl

named_in_body :
    (determine_team_id tables application_create (some (codes "r")) none (codes "u") two_teams).1
    ≡ ok (codes "r")
unfolding determine_team_id
named_in_body = refl
