-- ===== src/Server/Teams/Stored.antt =====
-- The permissions that server/internal/app/usecase/team_usecase.go stores.
use to_toggle.Prelude.{
  sym, subst, inl, inr, Bool, not, List, [], ◌∷◌, Text, text_eq, is_empty, is_nil, any, ◌||◌,
  if◌then◌else◌, Bool-cases,
}
use to_toggle.Server.Db.{
  invalid, Answer, ok, err, and_then, and_then_cases, rename_error, rename_error_state, find_first,
  Answer-cases,
}
use to_toggle.Server.Db.Rows.{All-++}
use to_toggle.Server.Db.Keep.{and_then_holds, guard_holds, All-select, All-each}
use to_toggle.Server.User.{Team, TeamApplication, TeamPermissionLevel, preload}
use to_toggle.Server.Approval.Workflow.{Named}
use to_toggle.Server.Approval.Filing.{TeamTables, get_applications_by_team_id}
use to_toggle.Server.Teams.{
  TeamStatements, existing_team, existing_application, for_team_and_application,
  add_application_to_team, remove_application_from_team, update_application_permission,
  get_team_application_permission, validate_permission, insert_association, remove_association,
  update_association, is_association,
}
use to_toggle.Server.Teams.Permissions.{Known}
use to_toggle.Server.Teams.Access.{AllKnown}
use to_toggle.Server.Teams.Reads.{
  ReadsKeep, preload_holds, find_first_holds, existing_team_holds, existing_application_holds,
}
use to_toggle.Server.Teams.Deletion.{LawfulTeams, ReadsKeep-grants}

module _ {S : Type 0} (db : TeamTables S) (more : TeamStatements S)
    (law : LawfulTeams db more) where
  -- The stored permissions are valid.
  abbrev Sound : S → Type 0
  Sound s = AllKnown (db.team_applications.rows s)

  reads : ReadsKeep db Sound
  reads = ReadsKeep-grants db more law (λ g. AllKnown g.1)

  for_team_and_application-Sound :
      (team_id app_id : Text) (f : S → S × Answer Unit) (s : S)
      → ((s1 : S) → Sound s1 → Sound (f s1).0)
      → Sound s
      → Sound (for_team_and_application db more team_id app_id f s).0
  unfolding for_team_and_application
  for_team_and_application-Sound team_id app_id f s keep h =
      let next : Team → S → S × Answer Unit =
        (λ x s1. and_then (existing_application db more app_id s1) (λ a. f)) in
      and_then_holds Sound (existing_team db more team_id s) next
        (existing_team_holds db more Sound reads team_id s h)
        (λ x s1 h1.
          and_then_holds Sound (existing_application db more app_id s1) (λ a. f)
            (existing_application_holds db more Sound reads app_id s1 h1) (λ a s2 h2. keep s2 h2))

  insert_association-Sound :
      (team_id app_id : Text) (p : TeamPermissionLevel) (s : S)
      → Known p
      → Sound s
      → Sound (insert_association db more team_id app_id p s).0
  insert_association-Sound team_id app_id p s k h =
      let m : TeamApplication = (record {
        team_id = team_id;
        application_id = app_id;
        permission = p;
      }) in
      elim (Answer-cases (db.team_applications.insert m s).1) [
        | inl (done, e) ↦
            subst AllKnown (sym (law.associations_law.insert_ok m s e).0)
              (All-++ (λ t. Known t.permission) (db.team_applications.rows s) (m ∷ []) h (k, tt))
        | inr (e, q) ↦ subst AllKnown (sym (law.associations_law.insert_err m s e q)) h
      ]

  remove_association-Sound :
      (team_id app_id : Text) (s : S)
      → Sound s
      → Sound (remove_association db more team_id app_id s).0
  remove_association-Sound team_id app_id s h =
      let p : TeamApplication → Bool = is_association db more team_id app_id in
      elim (Answer-cases (db.team_applications.delete_where p s).1) [
        | inl (done, e) ↦
            subst AllKnown (sym (law.associations_law.delete_where_ok p s e)) (
              All-select (λ t. Known t.permission) (λ m. not (p m)) (db.team_applications.rows s) h)
        | inr (e, q) ↦ subst AllKnown (sym (law.associations_law.delete_where_err p s e q)) h
      ]

  update_association-Sound :
      (team_id app_id : Text) (p : TeamPermissionLevel) (s : S)
      → Known p
      → Sound s
      → Sound (update_association db more team_id app_id p s).0
  update_association-Sound team_id app_id p s k h =
      let q : TeamApplication → Bool = is_association db more team_id app_id in
      let f : TeamApplication → TeamApplication = (λ m. record m { permission = p }) in
      let set : (m : TeamApplication)
          → Known m.permission
          → Known (if q m then f m else m).permission =
        (λ m i. elim (Bool-cases (q m)) [ inl e ↦ rw e k | inr e ↦ rw e i ]) in
      elim (Answer-cases (db.team_applications.update q f s).1) [
        | inl (done, e) ↦ subst AllKnown (sym (law.associations_law.update_ok q f s e)) (
            All-each (λ t. Known t.permission) (λ t. Known t.permission)
              (λ m. if q m then f m else m) set (db.team_applications.rows s) h)
        | inr (e, r) ↦ subst AllKnown (sym (law.associations_law.update_err q f s e r)) h
      ]

  validated-Sound :
      (p : TeamPermissionLevel) (f : Unit → S → S × Answer Unit) (s : S)
      → (Known p → Sound (f tt s).0)
      → Sound s
      → Sound (and_then (s, validate_permission p) f).0
  validated-Sound p f s keep h = elim (and_then_cases (s, validate_permission p) f) [
    | inl (a, e, q) ↦ subst (λ z. Sound z.0) (sym q) (keep e)
    | inr (e, r, q) ↦ subst (λ z. Sound z.0) (sym q) h
  ]

  get_applications-Sound :
      (team_id : Text) (s : S) → Sound s → Sound (get_applications_by_team_id db team_id s).0
  unfolding get_applications_by_team_id
  get_applications-Sound team_id s h =
      let apps : List TeamApplication → S → S × Answer (List Named) = (λ ms.
        preload db.applications (λ a. any (λ m. text_eq m.application_id a.id) ms) (is_nil ms)) in
      let next : Team → S → S × Answer (List Named) =
        (λ x s1. and_then (db.team_applications.find (λ m. text_eq m.team_id team_id) s1) apps) in
      and_then_holds Sound (find_first db.teams (λ x. text_eq x.id team_id) s) next
        (find_first_holds Sound db.teams (λ x. text_eq x.id team_id) s reads.teams h)
        (λ x s1 h1.
          and_then_holds Sound (db.team_applications.find (λ m. text_eq m.team_id team_id) s1) apps
            (reads.team_applications (λ m. text_eq m.team_id team_id) s1 h1)
            (λ ms s2 h2.
              preload_holds Sound db.applications (λ a. any (λ m. text_eq m.application_id a.id) ms)
                (is_nil ms) s2 reads.applications h2))

  get_permission-Sound :
      (team_id app_id : Text) (s : S)
      → Sound s
      → Sound (get_team_application_permission db more team_id app_id s).0
  unfolding get_team_application_permission
  get_permission-Sound team_id app_id s h =
      let p : TeamApplication → Bool = is_association db more team_id app_id in
      and_then_holds Sound (find_first db.team_applications p s) (λ m s1. (s1, ok m.permission))
        (find_first_holds Sound db.team_applications p s reads.team_applications h) (λ m s1 h1. h1)

  add_application-Sound :
      (team_id app_id : Text) (p : TeamPermissionLevel) (s : S)
      → Sound s
      → Sound (add_application_to_team db more team_id app_id p s).0
  unfolding add_application_to_team
  add_application-Sound team_id app_id p s h =
      let store : List Named → S → S × Answer Unit = (λ apps s2.
        if any (λ a. text_eq a.id app_id) apps
        then (s2, err (invalid "application is already associated with this team"))
        else insert_association db more team_id app_id p s2) in
      let checked : S → S × Answer Unit =
        (λ s1. and_then (get_applications_by_team_id db team_id s1) store) in
      let next : Unit → S → S × Answer Unit =
        (λ done. for_team_and_application db more team_id app_id checked) in
      guard_holds Sound (is_empty team_id || is_empty app_id)
        (s, err (invalid "team ID and application ID are required"))
        (and_then (s, validate_permission p) next) h
        (validated-Sound p next s
          (λ k.
            for_team_and_application-Sound team_id app_id checked s
              (λ s1 h1.
                and_then_holds Sound (get_applications_by_team_id db team_id s1) store
                  (get_applications-Sound team_id s1 h1)
                  (λ apps s2 h2.
                    guard_holds Sound (any (λ a. text_eq a.id app_id) apps)
                      (s2, err (invalid "application is already associated with this team"))
                      (insert_association db more team_id app_id p s2) h2
                      (insert_association-Sound team_id app_id p s2 k h2)))
              h)
          h)

  update_permission-Sound :
      (team_id app_id : Text) (p : TeamPermissionLevel) (s : S)
      → Sound s
      → Sound (update_application_permission db more team_id app_id p s).0
  unfolding update_application_permission
  update_permission-Sound team_id app_id p s h =
      let found : S → S × Answer TeamPermissionLevel = (λ s1.
        rename_error (invalid "application is not associated with this team")
          (get_team_application_permission db more team_id app_id s1)) in
      let write : TeamPermissionLevel → S → S × Answer Unit =
        (λ old. update_association db more team_id app_id p) in
      let checked : S → S × Answer Unit = (λ s1. and_then (found s1) write) in
      let next : Unit → S → S × Answer Unit =
        (λ done. for_team_and_application db more team_id app_id checked) in
      guard_holds Sound (is_empty team_id || is_empty app_id)
        (s, err (invalid "team ID and application ID are required"))
        (and_then (s, validate_permission p) next) h
        (validated-Sound p next s
          (λ k.
            for_team_and_application-Sound team_id app_id checked s
              (λ s1 h1.
                and_then_holds Sound (found s1) write
                  (subst Sound
                    (sym (
                      rename_error_state (invalid "application is not associated with this team")
                        (get_team_application_permission db more team_id app_id s1)))
                    (get_permission-Sound team_id app_id s1 h1))
                  (λ old s2 h2. update_association-Sound team_id app_id p s2 k h2))
              h)
          h)

  remove_application-Sound :
      (team_id app_id : Text) (s : S)
      → Sound s
      → Sound (remove_application_from_team db more team_id app_id s).0
  unfolding remove_application_from_team
  remove_application-Sound team_id app_id s h =
      guard_holds Sound (is_empty team_id || is_empty app_id)
        (s, err (invalid "team ID and application ID are required"))
        (for_team_and_application db more team_id app_id (remove_association db more team_id app_id)
          s)
        h
        (for_team_and_application-Sound team_id app_id (remove_association db more team_id app_id) s
          (remove_association-Sound team_id app_id) h)

  -- However they end, AddApplicationToTeam, UpdateApplicationPermission and
  -- RemoveApplicationFromTeam leave only valid permissions stored, where they were valid before.
  pub stored_permissions_stay_valid :
      (team_id app_id : Text) (p : TeamPermissionLevel) (s : S)
      → AllKnown (db.team_applications.rows s)
      → AllKnown (db.team_applications.rows (add_application_to_team db more team_id app_id p s).0)
        × AllKnown
            (db.team_applications.rows (update_application_permission db more team_id app_id p s).0)
        × AllKnown
            (db.team_applications.rows (remove_application_from_team db more team_id app_id s).0)
  stored_permissions_stay_valid team_id app_id p s h = (
    add_application-Sound team_id app_id p s h,
    update_permission-Sound team_id app_id p s h,
    remove_application-Sound team_id app_id s h,
  )
