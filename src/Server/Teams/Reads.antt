-- ===== src/Server/Teams/Reads.antt =====
-- What the reads of server/internal/app/infrastructure/database/team_repository.go keep.
use to_toggle.Prelude.{sym, subst, Bool, List, Text, text_eq, is_nil, any}
use to_toggle.Server.Db.{
  Fault, invalid, Answer, ok, and_then, rename_error, rename_error_state, find_first, Table,
}
use to_toggle.Server.Db.Reads.{find_first_state}
use to_toggle.Server.Db.Keep.{and_then_holds, guard_holds}
use to_toggle.Server.User.{User, Team, TeamUser, TeamApplication, preload}
use to_toggle.Server.Approval.Workflow.{Named}
use to_toggle.Server.Approval.Filing.{TeamTables}
use to_toggle.Server.Teams.{
  TeamStatements, with_associations, get_team_by_id, existing_team, existing_application,
  get_application,
}

-- A read of the table keeps what holds of the state.
abbrev pub Keeps : {S R : Type 0} → (S → Type 0) → Table S R → Type 0
Keeps {S = S} {R = R} P t = (p : R → Bool) (s : S) → P s → P (t.find p s).0

pub record ReadsKeep {S : Type 0} (db : TeamTables S) (P : S → Type 0) : Type 0 where
  pub users : Keeps P db.users
  pub teams : Keeps P db.teams
  pub members : Keeps P db.members
  pub team_applications : Keeps P db.team_applications
  pub applications : Keeps P db.applications

module _ {S : Type 0} (P : S → Type 0) where
  pub preload_holds :
      {R : Type 0} (t : Table S R) (p : R → Bool) (nothing : Bool) (s : S)
      → Keeps P t
      → P s
      → P (preload t p nothing s).0
  unfolding preload
  preload_holds t p nothing s keep h = guard_holds P nothing _ _ h (keep p s h)

  pub find_first_holds :
      {R : Type 0} (t : Table S R) (p : R → Bool) (s : S) → Keeps P t → P s → P (find_first t p s).0
  find_first_holds t p s keep h = subst P (sym (find_first_state t p s)) (keep p s h)

  pub rename_error_holds :
      {A : Type 0} (e : Fault) (x : S × Answer A) → P x.0 → P (rename_error e x).0
  rename_error_holds e x h = subst P (sym (rename_error_state e x)) h

module _ {S : Type 0} (db : TeamTables S) (more : TeamStatements S) (P : S → Type 0)
    (keep : ReadsKeep db P) where
  with_associations_holds : (x : Team) (s : S) → P s → P (with_associations db more x s).0
  unfolding with_associations
  with_associations_holds x s h =
      let apps : List TeamApplication → S → S × Answer (List Named) = (λ tas.
        preload db.applications (λ a. any (λ m. text_eq m.application_id a.id) tas) (is_nil tas)) in
      let end : List Named → S → S × Answer Team = (λ l s4. (s4, ok x)) in
      let tas : List User → S → S × Answer Team = (λ us s2.
        and_then (db.team_applications.find (λ m. text_eq m.team_id x.id) s2)
          (λ l s3. and_then (apps l s3) end)) in
      let us : List TeamUser → S → S × Answer (List User) =
        (λ ms. preload db.users (λ u. any (λ m. text_eq m.user_id u.id) ms) (is_nil ms)) in
      and_then_holds P (db.members.find (λ m. text_eq m.team_id x.id) s)
        (λ ms s1. and_then (us ms s1) tas) (keep.members (λ m. text_eq m.team_id x.id) s h)
        (λ ms s1 h1.
          and_then_holds P (us ms s1) tas
            (preload_holds P db.users (λ u. any (λ m. text_eq m.user_id u.id) ms) (is_nil ms) s1
              keep.users h1)
            (λ l s2 h2.
              and_then_holds P (db.team_applications.find (λ m. text_eq m.team_id x.id) s2)
                (λ l s3. and_then (apps l s3) end)
                (keep.team_applications (λ m. text_eq m.team_id x.id) s2 h2)
                (λ l s3 h3.
                  and_then_holds P (apps l s3) end
                    (preload_holds P db.applications
                      (λ a. any (λ m. text_eq m.application_id a.id) l) (is_nil l) s3
                      keep.applications h3)
                    (λ k s4 h4. h4))))

  pub get_team_by_id_holds : (id : Text) (s : S) → P s → P (get_team_by_id db more id s).0
  unfolding get_team_by_id
  get_team_by_id_holds id s h =
      and_then_holds P (find_first db.teams (λ x. text_eq x.id id) s)
        (λ x. with_associations db more x)
        (find_first_holds P db.teams (λ x. text_eq x.id id) s keep.teams h) with_associations_holds

  pub existing_team_holds : (id : Text) (s : S) → P s → P (existing_team db more id s).0
  existing_team_holds id s h =
      rename_error_holds P (invalid "team not found") (get_team_by_id db more id s)
        (get_team_by_id_holds id s h)

  pub existing_application_holds :
      (id : Text) (s : S) → P s → P (existing_application db more id s).0
  existing_application_holds id s h =
      rename_error_holds P (invalid "application not found") (get_application db more id s)
        (find_first_holds P db.applications (λ a. text_eq a.id id) s keep.applications h)
