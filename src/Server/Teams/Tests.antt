-- ===== src/Server/Teams/Tests.antt =====
-- Teams on a small database.
use to_toggle.Prelude.{
  ◌≡◌, refl, sym, ap, ◌∙◌, subst, inl, inr, ◌↔◌, Bool, true, false, ◌&&◌, some, List, [], ◌∷◌, ◌++◌,
  Text, codes, text_eq, text_eq_iff, select, In, any,
}
use to_toggle.Server.Db.{ok, err, invalid, find_first}
use to_toggle.Server.Db.Rows.{In-select}
use to_toggle.Server.User.{
  User, admin, TeamUser, Team, TeamApplication, TeamPermissionLevel, permission_read,
  permission_write, permission_admin, other_permission,
}
use to_toggle.Server.Approval.Workflow.{Named}
use to_toggle.Server.Approval.Filing.{TeamTables}
use to_toggle.Server.Approval.Sample.{part, part-Lawful}
use to_toggle.Server.Teams.{
  Rows, rows_end, rows_broken, rows_next, TeamStatements, scan_permissions, create_team,
  delete_team, add_application_to_team, update_application_permission, remove_application_from_team,
  user_can_modify_application, user_can_admin_application, user_can_access_application, is_admin,
}
use to_toggle.Server.Teams.Permissions.{modifies, Scanned, any-In}
use to_toggle.Server.Teams.Access.{Granted, grants, AllKnown, Whole, user_permissions_exact}
use to_toggle.Server.Teams.Deletion.{LawfulTeams, without, deleted_team_grants_nothing}
use to_toggle.Server.Teams.Stored.{stored_permissions_stay_valid}

record Teams : Type 0 where
  users : List User
  teams : List Team
  members : List TeamUser
  team_applications : List TeamApplication
  applications : List Named

abbrev tables : TeamTables Teams
tables = record {
  users = part (λ u. u.id) (λ d. d.users) (λ l d. record d { users = l });
  teams = part (λ x. x.id) (λ d. d.teams) (λ l d. record d { teams = l });
  members = part (λ m. m.team_id ++ m.user_id) (λ d. d.members) (λ l d. record d { members = l });
  team_applications =
      part (λ m. m.team_id ++ m.application_id) (λ d. d.team_applications)
        (λ l d. record d { team_applications = l });
  applications = part (λ a. a.id) (λ d. d.applications) (λ l d. record d { applications = l });
}

abbrev is_joined : Text → Text → List TeamUser → TeamApplication → Bool
is_joined user_id app_id ms t =
    text_eq t.application_id app_id
    && any (λ m. text_eq m.user_id user_id && text_eq m.team_id t.team_id) ms

rows_of : List TeamApplication → Rows
rows_of [] = rows_end
rows_of (t ∷ ts) = rows_next (some t.permission) (rows_of ts)

abbrev statements : TeamStatements Teams
statements = record {
  append_member = λ team_id user_id d. (
    record d {
      members =
          d.members ++ (record { team_id = team_id; user_id = user_id; is_approver = false } ∷ []);
    },
    ok tt,
  );
  permissions_of = λ user_id app_id d.
      (d, ok (rows_of (select (is_joined user_id app_id d.members) d.team_applications)));
}

and_true : (a b : Bool) → a && b ≡ true → (a ≡ true) × (b ≡ true)
and_true true b h = (refl, h)
and_true false b h = cc

rows_of-Scanned :
    (ts : List TeamApplication) (p : TeamPermissionLevel)
    → Scanned p (rows_of ts) ↔ ((t : TeamApplication) × In t ts × (t.permission ≡ p))
unfolding rows_of
rows_of-Scanned [] p = ((λ h. elim h [ ]), (λ (t, m, e). elim m [ ]))
rows_of-Scanned (x ∷ ts) p =
    let (f, g) = rows_of-Scanned ts p in
    (
      (λ h. elim h [ inl e ↦ (x, inl refl, sym e) | inr k ↦ let (t, m, e) = f k in (t, inr m, e) ]),
      (λ (t, m, e). elim m [
        | inl q ↦ inl (sym e ∙ ap (λ y. y.permission) q)
        | inr i ↦ inr (g (t, i, e))
      ]),
    )

list_of : (a b : Rows) → ok a ≡ ok b → b ≡ a
list_of a b h = cc

joined-Granted :
    (user_id app_id : Text) (d : Teams) (rs : Rows) (p : TeamPermissionLevel)
    → (statements.permissions_of user_id app_id d).1 ≡ ok rs
    → Scanned p rs
    → Granted user_id app_id p (grants tables d)
joined-Granted user_id app_id d rs p h k =
    let joined = select (is_joined user_id app_id d.members) d.team_applications in
    let (t, m, e) =
      (rows_of-Scanned joined p).0 (subst (Scanned p) (list_of (rows_of joined) rs h) k) in
    let (i, q) = (In-select (is_joined user_id app_id d.members) d.team_applications t).0 m in
    let (a, b) = and_true (text_eq t.application_id app_id) _ q in
    let (u, n, c) =
      (any-In (λ x. text_eq x.user_id user_id && text_eq x.team_id t.team_id) d.members).0 b in
    let (v, w) = and_true (text_eq u.user_id user_id) (text_eq u.team_id t.team_id) c in
    (
      u,
      t,
      n,
      i,
      (text_eq_iff u.user_id user_id).0 v,
      (text_eq_iff t.application_id app_id).0 a,
      (text_eq_iff u.team_id t.team_id).0 w,
      e,
    )

statements-Whole : Whole tables statements
statements-Whole user_id app_id d rs p h (u, t, n, i, v, a, w, e) =
    let joined = select (is_joined user_id app_id d.members) d.team_applications in
    let b =
      (any-In (λ x. text_eq x.user_id user_id && text_eq x.team_id t.team_id) d.members).1 (
        u,
        n,
        (rw ((text_eq_iff u.user_id user_id).1 v) ((text_eq_iff u.team_id t.team_id).1 w)),
      ) in
    subst (Scanned p) (sym (list_of (rows_of joined) rs h)) (
      (rows_of-Scanned joined p).1 (
        t,
        (In-select (is_joined user_id app_id d.members) d.team_applications t).1
            (i, rw ((text_eq_iff t.application_id app_id).1 a) b),
        e,
      ))

tables-LawfulTeams : LawfulTeams tables statements
tables-LawfulTeams = record {
  reads = record {
    users_find = λ p s. refl;
    applications_find = λ p s. refl;
    joined = joined-Granted;
  };
  teams_find = λ p s. refl;
  members_find = λ p s. refl;
  associations_find = λ p s. refl;
  members_law =
      part-Lawful (λ m. m.team_id ++ m.user_id) (λ d. d.members) (λ l d. record d { members = l })
        (λ l d. refl);
  associations_law =
      part-Lawful (λ m. m.team_id ++ m.application_id) (λ d. d.team_applications)
        (λ l d. record d { team_applications = l }) (λ l d. refl);
  members_delete = λ p s. refl;
  associations_delete = λ p s. refl;
  teams_delete = λ k s. refl;
}

abbrev ana : User
ana = record {
  id = codes "u";
  name = codes "Ana";
  username = codes "ana";
  password = [];
  role = admin;
  must_change_password = false;
  active = true;
}

abbrev team_named : Text → Team
team_named t = record { id = t; name = t ++ t; description = [] }

abbrev member_of : Text → TeamUser
member_of team_id = record { team_id = team_id; user_id = codes "u"; is_approver = false }

abbrev has : Text → TeamPermissionLevel → TeamApplication
has team_id p = record { team_id = team_id; application_id = codes "a"; permission = p }

-- Ana is in the teams p, which may read the application a, and q, which may write it.
abbrev two_teams : Teams
two_teams = record {
  users = ana ∷ [];
  teams = team_named (codes "p") ∷ team_named (codes "q") ∷ [];
  members = member_of (codes "p") ∷ member_of (codes "q") ∷ [];
  team_applications = has (codes "p") permission_read ∷ has (codes "q") permission_write ∷ [];
  applications = record { id = codes "a"; label = [] } ∷ [];
}

abbrev without_p : Teams
without_p = record two_teams {
  teams = team_named (codes "q") ∷ [];
  members = member_of (codes "q") ∷ [];
  team_applications = has (codes "q") permission_write ∷ [];
}

highest_is_write :
    (user_can_access_application tables statements (codes "u") (codes "a") two_teams).1
    ≡ ok (some permission_write)
unfolding user_can_access_application find_first text_eq rows_of
highest_is_write = refl

user_permissions_exact_example :
    (true ≡ true ↔ (
      (p : TeamPermissionLevel) × Granted (codes "u") (codes "a") p (grants tables two_teams)
      × (modifies p ≡ true)))
    × (false ≡ true ↔ (
        (p : TeamPermissionLevel) × Granted (codes "u") (codes "a") p (grants tables two_teams)
        × (is_admin p ≡ true)))
unfolding user_can_modify_application user_can_admin_application find_first text_eq rows_of
user_permissions_exact_example =
    user_permissions_exact tables statements tables-LawfulTeams.reads (codes "u") (codes "a")
      two_teams true false statements-Whole (refl, (refl, tt)) refl refl

p_is_deleted : delete_team tables statements (codes "p") two_teams ≡ (without_p, ok tt)
unfolding delete_team find_first text_eq
p_is_deleted = refl

deleted_team_grants_nothing_example :
    (p : TeamPermissionLevel) × Granted
      (codes "u")
      (codes "a")
      p
      (without (codes "p") (grants tables two_teams))
    × (modifies p ≡ true)
unfolding user_can_modify_application find_first text_eq rows_of
deleted_team_grants_nothing_example =
    deleted_team_grants_nothing tables statements tables-LawfulTeams (codes "p") (codes "u")
      (codes "a") two_teams without_p (refl, (refl, tt)) p_is_deleted refl

stored_permissions_stay_valid_example :
    AllKnown
      (add_application_to_team tables statements
        (codes "q")
        (codes "a")
        permission_admin
        two_teams).0.team_applications
    × AllKnown
        (update_application_permission tables statements
          (codes "q")
          (codes "a")
          permission_admin
          two_teams).0.team_applications
    × AllKnown
        (remove_application_from_team tables statements
          (codes "q")
          (codes "a")
          two_teams).0.team_applications
stored_permissions_stay_valid_example =
    stored_permissions_stay_valid tables statements tables-LawfulTeams (codes "q") (codes "a")
      permission_admin two_teams (refl, (refl, tt))

permission_is_raised :
    (update_application_permission tables statements
      (codes "p")
      (codes "a")
      permission_admin
      two_teams).0.team_applications
    ≡ has (codes "p") permission_admin ∷ has (codes "q") permission_write ∷ []
unfolding update_application_permission find_first text_eq
permission_is_raised = refl

unknown_permission_refused :
    (add_application_to_team tables statements
      (codes "q")
      (codes "a")
      (other_permission (codes "owner"))
      two_teams).1
    ≡ err (invalid "invalid permission level")
unfolding add_application_to_team
unknown_permission_refused = refl

taken_name_refused :
    (create_team tables statements
      (record { id = codes "r"; name = codes "qq"; description = [] })
      two_teams).1
    ≡ err (invalid "team name already exists")
unfolding create_team find_first text_eq
taken_name_refused = refl

-- A reading that breaks off is taken for the whole.
broken_rows_are_dropped :
    scan_permissions (rows_next (some permission_read) rows_broken) ≡ ok (permission_read ∷ [])
unfolding scan_permissions
broken_rows_are_dropped = refl
