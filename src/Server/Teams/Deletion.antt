-- ===== src/Server/Teams/Deletion.antt =====
-- What the calls of server/internal/app/usecase/team_usecase.go leave in team_users and
-- team_applications.
use to_toggle.Prelude.{
  ◌≡◌, refl, sym, ap, ◌∙◌, subst, Bool, true, not, ◌++◌, Text, text_eq, is_empty, select,
}
use to_toggle.Server.Db.{invalid, Answer, ok, and_then, and_then_ok, guard_ok, Lawful}
use to_toggle.Server.Db.Keep.{All-select}
use to_toggle.Server.User.{Team, TeamUser, TeamApplication, TeamPermissionLevel}
use to_toggle.Server.Approval.Filing.{TeamTables}
use to_toggle.Server.Teams.{
  TeamStatements, existing_team, delete_team_rows, delete_team, user_can_modify_application,
}
use to_toggle.Server.Teams.Permissions.{Known, modifies}
use to_toggle.Server.Teams.Reads.{ReadsKeep, existing_team_holds}
use to_toggle.Server.Teams.Access.{
  Grants, Granted, grants, LawfulReads, AllKnown, user_can_modify-Granted,
}

pair-≡ : {A B : Type 0} (x y : A × B) → x.0 ≡ y.0 → x.1 ≡ y.1 → x ≡ y
pair-≡ (a, b) (c, d) e f = cc

-- A statement on one table leaves the others as they are.
pub record LawfulTeams {S : Type 0} (db : TeamTables S) (more : TeamStatements S) : Type 0 where
  pub reads : LawfulReads db more
  pub teams_find : (p : Team → Bool) (s : S) → grants db (db.teams.find p s).0 ≡ grants db s
  pub members_find : (p : TeamUser → Bool) (s : S) → grants db (db.members.find p s).0 ≡ grants db s
  pub associations_find :
      (p : TeamApplication → Bool) (s : S)
      → grants db (db.team_applications.find p s).0 ≡ grants db s
  pub members_law : Lawful (λ m. m.team_id ++ m.user_id) db.members
  pub associations_law : Lawful (λ m. m.team_id ++ m.application_id) db.team_applications
  pub members_delete :
      (p : TeamUser → Bool) (s : S)
      → db.team_applications.rows (db.members.delete_where p s).0 ≡ db.team_applications.rows s
  pub associations_delete :
      (p : TeamApplication → Bool) (s : S)
      → db.members.rows (db.team_applications.delete_where p s).0 ≡ db.members.rows s
  pub teams_delete : (k : Text) (s : S) → grants db (db.teams.delete k s).0 ≡ grants db s

-- The rows that are not of the team.
abbrev pub without : Text → Grants → Grants
without id g =
    (select (λ m. not (text_eq m.team_id id)) g.0, select (λ m. not (text_eq m.team_id id)) g.1)

module _ {S : Type 0} (db : TeamTables S) (more : TeamStatements S)
    (law : LawfulTeams db more) where
  -- Each read keeps what holds of the rows of the members and of the teams of applications.
  pub ReadsKeep-grants : (Q : Grants → Type 0) → ReadsKeep db (λ s. Q (grants db s))
  ReadsKeep-grants Q = record {
    users = λ p s h. subst Q (sym (law.reads.users_find p s)) h;
    teams = λ p s h. subst Q (sym (law.teams_find p s)) h;
    members = λ p s h. subst Q (sym (law.members_find p s)) h;
    team_applications = λ p s h. subst Q (sym (law.associations_find p s)) h;
    applications = λ p s h. subst Q (sym (law.reads.applications_find p s)) h;
  }

  delete_team_rows_ok :
      (id : Text) (s : S)
      → (delete_team_rows db more id s).1 ≡ ok tt
      → grants db (delete_team_rows db more id s).0 ≡ without id (grants db s)
  unfolding delete_team_rows
  delete_team_rows_ok id s h =
      let p : TeamUser → Bool = (λ m. text_eq m.team_id id) in
      let q : TeamApplication → Bool = (λ m. text_eq m.team_id id) in
      let (a, e, g, k) =
        and_then_ok (db.members.delete_where p s)
          (λ a s1. and_then (db.team_applications.delete_where q s1) (λ b. db.teams.delete id)) tt
          h in
      let s1 = (db.members.delete_where p s).0 in
      let (b, e', g', k') =
        and_then_ok (db.team_applications.delete_where q s1) (λ b. db.teams.delete id) tt k in
      let s2 = (db.team_applications.delete_where q s1).0 in
      let fst = law.associations_delete q s1 ∙ law.members_law.delete_where_ok p s e in
      let snd =
        law.associations_law.delete_where_ok q s1 e'
        ∙ ap (select (λ m. not (q m))) (law.members_delete p s) in
      ap (λ z. grants db z.0) (g ∙ g')
      ∙ law.teams_delete id s2
      ∙ pair-≡ (grants db s2) (without id (grants db s)) fst snd

  -- A deletion that succeeds takes the rows of the team, and no others.
  delete_team-without :
      (id : Text) (s : S)
      → (delete_team db more id s).1 ≡ ok tt
      → grants db (delete_team db more id s).0 ≡ without id (grants db s)
  unfolding delete_team
  delete_team-without id s h =
      let rest : Team → S → S × Answer Unit = (λ x. delete_team_rows db more id) in
      let (b, g, w) =
        guard_ok (is_empty id) s (invalid "team ID is required")
          (and_then (existing_team db more id s) rest) tt h in
      let (x, e, q, k) = and_then_ok (existing_team db more id s) rest tt w in
      let s1 = (existing_team db more id s).0 in
      ap (λ z. grants db z.0) (g ∙ q)
      ∙ delete_team_rows_ok id s1 k
      ∙ ap (without id) (
          existing_team_holds db more (λ x. grants db x ≡ grants db s)
            (ReadsKeep-grants (λ g. g ≡ grants db s)) id s refl)

  -- After a deletion of a team that succeeds, UserCanModifyApplication says yes only for a user
  -- whom another team gave the permission before, where the stored permissions are valid.
  pub deleted_team_grants_nothing :
      (id user_id app_id : Text) (s s' : S)
      → AllKnown (db.team_applications.rows s)
      → delete_team db more id s ≡ (s', ok tt)
      → (user_can_modify_application db more user_id app_id s').1 ≡ ok true
      → (p : TeamPermissionLevel) × Granted user_id app_id p (without id (grants db s))
        × (modifies p ≡ true)
  deleted_team_grants_nothing id user_id app_id s s' known d h =
      let gone =
        subst (λ z. grants db z.0 ≡ without id (grants db s)) d
          (delete_team-without id s (ap (λ z. z.1) d)) in
      let left = subst AllKnown (sym (ap (λ g. g.1) gone)) (
        All-select (λ t. Known t.permission) (λ m. not (text_eq m.team_id id))
          (db.team_applications.rows s) known) in
      let (p, g, m) = user_can_modify-Granted db more law.reads user_id app_id s' left h in
      (p, subst (Granted user_id app_id p) gone g, m)
