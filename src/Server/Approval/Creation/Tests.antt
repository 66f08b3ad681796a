-- ===== src/Server/Approval/Creation/Tests.antt =====
-- A request for a key on a small database.
use to_toggle.Prelude.{
  ◌≡◌, refl, true, false, none, some, List, [], ◌∷◌, ◌++◌, Text, codes, text_eq, select,
}
use to_toggle.Server.Db.{ok, err, denied, not_found, invalid, find_first}
use to_toggle.Server.Keys.{SecretKey}
use to_toggle.Server.User.{User, admin, TeamUser, Team, TeamApplication, can_read}
use to_toggle.Server.Approval.{pending, secret_key_create, ApprovalRequest, new_approval_request}
use to_toggle.Server.Approval.Workflow.{Stores, Decoder, Named, AuditLog, get_approval_stats}
use to_toggle.Server.Approval.Filing.{TeamTables}
use to_toggle.Server.Approval.Stats.{LawfulStats, how_many, is_counted, get_approval_stats_counts}
use to_toggle.Server.Teams.Membership.{teams_of}
use to_toggle.Server.Approval.Sample.{part, part-Lawful}
use to_toggle.Server.Teams.{rows_end, TeamStatements, get_team_by_id}
use to_toggle.Server.Approval.Creation.{
  Proposal, Encoder, Outside, create_unchecked, create_approval_request,
}
use to_toggle.Server.Approval.Creation.Asking.{LawfulFiling}

record Office : Type 0 where
  requests : List ApprovalRequest
  members : List TeamUser
  keys : List SecretKey
  audit : List AuditLog
  toggles : List Named
  applications : List Named
  users : List User
  teams : List Team
  team_applications : List TeamApplication

abbrev stores : Stores Office
stores = record {
  requests = part (λ r. r.id) (λ d. d.requests) (λ l d. record d { requests = l });
  members = part (λ m. m.team_id ++ m.user_id) (λ d. d.members) (λ l d. record d { members = l });
  keys = part (λ k. k.id) (λ d. d.keys) (λ l d. record d { keys = l });
  audit = part (λ a. a.text) (λ d. d.audit) (λ l d. record d { audit = l });
  toggles = part (λ n. n.id) (λ d. d.toggles) (λ l d. record d { toggles = l });
  applications = part (λ n. n.id) (λ d. d.applications) (λ l d. record d { applications = l });
}

abbrev tables : TeamTables Office
tables = record {
  users = part (λ u. u.id) (λ d. d.users) (λ l d. record d { users = l });
  teams = part (λ x. x.id) (λ d. d.teams) (λ l d. record d { teams = l });
  members = stores.members;
  team_applications =
      part (λ m. m.team_id ++ m.application_id) (λ d. d.team_applications)
        (λ l d. record d { team_applications = l });
  applications = stores.applications;
}

abbrev statements : TeamStatements Office
statements = record {
  append_member = λ t u d. (d, ok tt);
  permissions_of = λ u a d. (d, ok rows_end);
}

office-LawfulFiling : LawfulFiling stores tables
office-LawfulFiling = record {
  team_reads = λ g. record {
    users = λ p s h. h;
    teams = λ p s h. h;
    members = λ p s h. h;
    team_applications = λ p s h. h;
    applications = λ p s h. h;
  };
  teams_law = part-Lawful (λ x. x.id) (λ d. d.teams) (λ l d. record d { teams = l }) (λ l d. refl);
  same_members = λ s. refl;
  toggles_find = λ p s. refl;
  applications_find = λ p s. refl;
  users_law = part-Lawful (λ u. u.id) (λ d. d.users) (λ l d. record d { users = l }) (λ l d. refl);
  members_law =
      part-Lawful (λ m. m.team_id ++ m.user_id) (λ d. d.members) (λ l d. record d { members = l })
        (λ l d. refl);
  requests_law =
      part-Lawful (λ r. r.id) (λ d. d.requests) (λ l d. record d { requests = l }) (λ l d. refl);
  keys_law = part-Lawful (λ k. k.id) (λ d. d.keys) (λ l d. record d { keys = l }) (λ l d. refl);
  requests_insert = λ r s. refl;
  keys_insert = λ k s. refl;
  audit_insert = λ r s. refl;
}

-- The data of an action is the id of its key.
abbrev encoder : Encoder Text
encoder = record { marshal = λ d. some d; with_secret_key_id = λ d k. k }

abbrev decoder : Decoder
decoder = record { secret_key_id = λ t. some t; toggle = λ t. []; name = λ t. [] }

abbrev outside : Outside
outside = record {
  ulid = codes "r1";
  now = 100;
  week = 7;
  hash = λ t. 0 ∷ t;
  fresh = record { ulid = codes "k1"; random_hex = some (codes "f00d") };
}

abbrev ana : User
ana = record {
  id = codes "u";
  name = codes "Ana";
  username = codes "ana";
  password = [];
  role = admin;
  must_change_password = false;
  active = true;
}

abbrev office : Office
office = record {
  requests = [];
  members = record { team_id = codes "t"; user_id = codes "u"; is_approver = false } ∷ [];
  keys = [];
  audit = [];
  toggles = [];
  applications = record { id = codes "a"; label = codes "App" } ∷ [];
  users = ana ∷ [];
  teams = record { id = codes "t"; name = codes "Team"; description = [] } ∷ [];
  team_applications = [];
}

abbrev asks_key : Text → Proposal Text
asks_key team_id = record {
  action_type = secret_key_create;
  description = codes "Generate key";
  requested_by = codes "u";
  team_id = team_id;
  application_id = some (codes "a");
  toggle_id = none;
  action_data = [];
}

abbrev key_request : ApprovalRequest
key_request =
    record (new_approval_request (codes "r1") (codes "k1") 100 7 secret_key_create
      (codes "Generate key") (codes "u") (codes "t") (some (codes "a")) none) {
        requester_name = some (codes "ana");
        team_name = some (codes "Team");
        application_name = some (codes "App");
      }

not_a_member_is_refused :
    (create_unchecked stores decoder tables statements outside encoder
      (asks_key (codes "t"))
      (record office { members = [] })).1
    ≡ err denied
unfolding create_unchecked find_first text_eq can_read get_team_by_id
not_a_member_is_refused = refl

settings_decide :
    (create_approval_request stores decoder tables statements outside encoder
      (λ a d. (d, ok false))
      (asks_key (codes "t"))
      office).1
    ≡ err (invalid "this action does not require approval")
unfolding create_approval_request
settings_decide = refl

-- A user who exists and is in no team, and a request of a team.
abbrev ben : User
ben = record ana { id = codes "b"; username = codes "ben" }

abbrev asked_office : Office
asked_office = record office { requests = key_request ∷ []; users = ana ∷ ben ∷ [] }

office-LawfulStats : LawfulStats stores tables.users tables.teams
office-LawfulStats = record {
  users_find = λ p s. refl;
  teams_find = λ p s. refl;
  members_find = λ p s. refl;
  teams_law = office-LawfulFiling.teams_law;
  members_law = office-LawfulFiling.members_law;
  requests_law = office-LawfulFiling.requests_law;
}

ben_gets_statistics :
    (get_approval_stats stores decoder tables.users tables.teams ben asked_office).1
    ≡ ok (λ status. how_many status (key_request ∷ []))
unfolding get_approval_stats find_first text_eq new_approval_request
ben_gets_statistics = refl

get_approval_stats_counts_example :
    let ts = teams_of (codes "b") asked_office.members asked_office.teams in
    how_many pending (key_request ∷ [])
    ≡ how_many pending (select (is_counted ben ts) asked_office.requests)
get_approval_stats_counts_example =
    get_approval_stats_counts stores decoder tables.users tables.teams office-LawfulStats ben
      asked_office (λ status. how_many status (key_request ∷ [])) pending ben_gets_statistics

-- The statistics of a user who is in a team are those of its teams.
ana_gets_those_of_her_team :
    (get_approval_stats stores decoder tables.users tables.teams ana (record asked_office {
      requests = key_request ∷ record key_request { team_id = codes "x" } ∷ [];
    })).1
    ≡ ok (λ status. how_many status (key_request ∷ []))
unfolding get_approval_stats find_first text_eq new_approval_request
ana_gets_those_of_her_team = refl

-- A user who has been deleted since is an error, not a user without a team.
deleted_user_is_an_error :
    (get_approval_stats stores decoder tables.users tables.teams ben office).1 ≡ err not_found
unfolding get_approval_stats find_first text_eq
deleted_user_is_an_error = refl
