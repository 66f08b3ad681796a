-- ===== src/Server/Teams/Access.antt =====
-- Who may change an application by server/internal/app/usecase/team_usecase.go, against the rows of
-- team_users and team_applications.
use to_toggle.Prelude.{
  ◌≡◌, refl, sym, ap, ◌∙◌, subst, inl, inr, Bool, true, Option, List, [], ◌∷◌, Text, text_eq,
  is_empty, In, All, All-In, any, ◌||◌, ◌↔◌,
}
use to_toggle.Server.Db.{invalid, ok, and_then, and_then_ok, guard_ok, rename_error_state}
use to_toggle.Server.Db.Reads.{find_first_state}
use to_toggle.Server.User.{User, TeamUser, TeamApplication, TeamPermissionLevel}
use to_toggle.Server.Approval.Filing.{TeamTables}
use to_toggle.Server.Auth.{get_user}
use to_toggle.Server.Teams.{
  Rows, TeamStatements, scan_permissions, access_of, may_modify, may_administer, existing_user,
  existing_application, get_application, joined_permissions, get_user_application_permissions,
  user_can_access_application, user_can_modify_application, user_can_admin_application, is_admin,
}
use to_toggle.Server.Teams.Permissions.{
  Known, modifies, access_of-may_modify, access_of-may_administer, any-In, Scanned,
  scan_permissions_ok,
}

-- The rows of the members of teams and of the teams of applications.
abbrev pub Grants : Type 0
Grants = List TeamUser × List TeamApplication

-- Through a team of the user, the application is theirs with this permission.
abbrev pub Granted : Text → Text → TeamPermissionLevel → Grants → Type 0
Granted user_id app_id p g =
    (m : TeamUser) × (t : TeamApplication) × In m g.0
    × In t g.1
    × (m.user_id ≡ user_id)
    × (t.application_id ≡ app_id)
    × (m.team_id ≡ t.team_id)
    × (t.permission ≡ p)

abbrev pub grants : {S : Type 0} → TeamTables S → S → Grants
grants db s = (db.members.rows s, db.team_applications.rows s)

-- A read changes no row, and the join gives no permission but those of the joined rows.
pub record LawfulReads {S : Type 0} (db : TeamTables S) (more : TeamStatements S) : Type 0 where
  pub users_find : (p : User → Bool) (s : S) → grants db (db.users.find p s).0 ≡ grants db s
  pub applications_find : (p : _) (s : S) → grants db (db.applications.find p s).0 ≡ grants db s
  pub joined :
      (user_id app_id : Text) (s : S) (rs : Rows) (p : TeamPermissionLevel)
      → (more.permissions_of user_id app_id s).1 ≡ ok rs
      → Scanned p rs
      → Granted user_id app_id p (grants db s)

-- Every stored permission is one of the three.
abbrev pub AllKnown : List TeamApplication → Type 0
AllKnown l = All (λ t. Known t.permission) l

-- The rows of the join come all, without an error on the way.
abbrev pub Whole : {S : Type 0} → TeamTables S → TeamStatements S → Type 0
Whole {S = S} db more =
    (user_id app_id : Text) (s : S) (rs : Rows) (p : TeamPermissionLevel)
    → (more.permissions_of user_id app_id s).1 ≡ ok rs
    → Granted user_id app_id p (grants db s)
    → Scanned p rs

All-of :
    (P : TeamPermissionLevel → Type 0) (ps : List TeamPermissionLevel)
    → ((p : TeamPermissionLevel) → In p ps → P p)
    → All P ps
All-of P [] f = tt
All-of P (p ∷ ps) f = (f p (inl refl), All-of P ps (λ q m. f q (inr m)))

module _ {S : Type 0} (db : TeamTables S) (more : TeamStatements S)
    (law : LawfulReads db more) where
  existing_user_keeps : (id : Text) (s : S) → grants db (existing_user db more id s).0 ≡ grants db s
  existing_user_keeps id s =
      ap (grants db) (
        rename_error_state (invalid "user not found") (get_user db.users id s)
        ∙ find_first_state db.users (λ u. text_eq u.id id) s)
      ∙ law.users_find (λ u. text_eq u.id id) s

  existing_application_keeps :
      (id : Text) (s : S) → grants db (existing_application db more id s).0 ≡ grants db s
  existing_application_keeps id s =
      ap (grants db) (
        rename_error_state (invalid "application not found") (get_application db more id s)
        ∙ find_first_state db.applications (λ a. text_eq a.id id) s)
      ∙ law.applications_find (λ a. text_eq a.id id) s

  -- What a reading of the permissions has gone through.
  abbrev Read : Text → Text → S → List TeamPermissionLevel → Type 0
  Read user_id app_id s ps =
      (s2 : S) × (rs : Rows) × (grants db s2 ≡ grants db s)
      × ((more.permissions_of user_id app_id s2).1 ≡ ok rs)
      × (scan_permissions rs ≡ ok ps)

  joined_permissions_ok :
      (user_id app_id : Text) (s : S) (ps : List TeamPermissionLevel)
      → (joined_permissions db more user_id app_id s).1 ≡ ok ps
      → (rs : Rows) × ((more.permissions_of user_id app_id s).1 ≡ ok rs)
        × (scan_permissions rs ≡ ok ps)
  unfolding joined_permissions
  joined_permissions_ok user_id app_id s ps h =
      let (rs, e, q, k) =
        and_then_ok (more.permissions_of user_id app_id s) (λ rs s1. (s1, scan_permissions rs)) ps
          h in
      (rs, e, k)

  permissions-Read :
      (user_id app_id : Text) (s : S) (ps : List TeamPermissionLevel)
      → (get_user_application_permissions db more user_id app_id s).1 ≡ ok ps
      → Read user_id app_id s ps
  unfolding get_user_application_permissions
  permissions-Read user_id app_id s ps h =
      let (b, g, w) =
        guard_ok (is_empty user_id || is_empty app_id) s
          (invalid "user ID and application ID are required") _ ps h in
      let (u, e, q, k) =
        and_then_ok (existing_user db more user_id s)
          (λ u s1.
            and_then (existing_application db more app_id s1)
              (λ a. joined_permissions db more user_id app_id))
          ps w in
      let s1 = (existing_user db more user_id s).0 in
      let (a, e', q', k') =
        and_then_ok (existing_application db more app_id s1)
          (λ a. joined_permissions db more user_id app_id) ps k in
      let s2 = (existing_application db more app_id s1).0 in
      let (rs, r, c) = joined_permissions_ok user_id app_id s2 ps k' in
      (s2, rs, existing_application_keeps app_id s1 ∙ existing_user_keeps user_id s, r, c)

  access-Read :
      (user_id app_id : Text) (s : S) (r : Option TeamPermissionLevel)
      → (user_can_access_application db more user_id app_id s).1 ≡ ok r
      → (ps : List TeamPermissionLevel) × (r ≡ access_of ps) × Read user_id app_id s ps
  unfolding user_can_access_application
  access-Read user_id app_id s r h =
      let (ps, e, q, k) =
        and_then_ok (get_user_application_permissions db more user_id app_id s)
          (λ ps s1. (s1, ok (access_of ps))) r h in
      (ps, cc, permissions-Read user_id app_id s ps e)

  modify-Read :
      (user_id app_id : Text) (s : S) (b : Bool)
      → (user_can_modify_application db more user_id app_id s).1 ≡ ok b
      → (ps : List TeamPermissionLevel) × (b ≡ may_modify (access_of ps)) × Read user_id app_id s ps
  unfolding user_can_modify_application
  modify-Read user_id app_id s b h =
      let (r, e, q, k) =
        and_then_ok (user_can_access_application db more user_id app_id s)
          (λ a s1. (s1, ok (may_modify a))) b h in
      let (ps, g, w) = access-Read user_id app_id s r e in (ps, cc, w)

  admin-Read :
      (user_id app_id : Text) (s : S) (b : Bool)
      → (user_can_admin_application db more user_id app_id s).1 ≡ ok b
      → (ps : List TeamPermissionLevel) × (b ≡ may_administer (access_of ps))
        × Read user_id app_id s ps
  unfolding user_can_admin_application
  admin-Read user_id app_id s b h =
      let (r, e, q, k) =
        and_then_ok (user_can_access_application db more user_id app_id s)
          (λ a s1. (s1, ok (may_administer a))) b h in
      let (ps, g, w) = access-Read user_id app_id s r e in (ps, cc, w)

  -- What was read was granted.
  Read-Granted :
      (user_id app_id : Text) (s : S) (ps : List TeamPermissionLevel) (p : TeamPermissionLevel)
      → Read user_id app_id s ps
      → In p ps
      → Granted user_id app_id p (grants db s)
  Read-Granted user_id app_id s ps p (s2, rs, e, r, c) m =
      subst (Granted user_id app_id p) e
        (law.joined user_id app_id s2 rs p r ((scan_permissions_ok rs ps p c).0 m))

  Granted-Read :
      (user_id app_id : Text) (s : S) (ps : List TeamPermissionLevel) (p : TeamPermissionLevel)
      → Whole db more
      → Read user_id app_id s ps
      → Granted user_id app_id p (grants db s)
      → In p ps
  Granted-Read user_id app_id s ps p whole (s2, rs, e, r, c) g =
      (scan_permissions_ok rs ps p c).1
        (whole user_id app_id s2 rs p r (subst (Granted user_id app_id p) (sym e) g))

  Read-Known :
      (user_id app_id : Text) (s : S) (ps : List TeamPermissionLevel)
      → AllKnown (db.team_applications.rows s)
      → Read user_id app_id s ps
      → All Known ps
  Read-Known user_id app_id s ps known r = All-of Known ps (λ p m.
      let (x, t, i, j, a, b, c, q) = Read-Granted user_id app_id s ps p r m in
      subst Known q (All-In (λ y. Known y.permission) t (db.team_applications.rows s) known j))

  -- Some permission that was granted passes the test, exactly when some one that was read does.
  Read-decides :
      (f : TeamPermissionLevel → Bool) (user_id app_id : Text) (s : S)
      (ps : List TeamPermissionLevel)
      → Whole db more
      → Read user_id app_id s ps
      → any f ps ≡ true
        ↔ ((p : TeamPermissionLevel) × Granted user_id app_id p (grants db s) × (f p ≡ true))
  Read-decides f user_id app_id s ps whole r = (
    (λ h. let (p, m, e) = (any-In f ps).0 h in (p, Read-Granted user_id app_id s ps p r m, e)),
    (λ (p, g, e). (any-In f ps).1 (p, Granted-Read user_id app_id s ps p whole r g, e)),
  )

  -- Where UserCanModifyApplication says yes, a team of the user has the application with the
  -- permission to write or to administer.
  pub user_can_modify-Granted :
      (user_id app_id : Text) (s : S)
      → AllKnown (db.team_applications.rows s)
      → (user_can_modify_application db more user_id app_id s).1 ≡ ok true
      → (p : TeamPermissionLevel) × Granted user_id app_id p (grants db s) × (modifies p ≡ true)
  user_can_modify-Granted user_id app_id s known h =
      let (ps, e, r) = modify-Read user_id app_id s true h in
      let (p, m, q) =
        (any-In modifies ps).0
          (sym (access_of-may_modify ps (Read-Known user_id app_id s ps known r)) ∙ sym e) in
      (p, Read-Granted user_id app_id s ps p r m, q)

  -- Where the stored permissions are valid and the query gives all its rows, the answer of
  -- UserCanModifyApplication is yes exactly when one of the user's teams has the application with
  -- the permission to write or to administer, and that of UserCanAdminApplication exactly when one has
  -- it with the permission to administer.
  pub user_permissions_exact :
      (user_id app_id : Text) (s : S) (b c : Bool)
      → Whole db more
      → AllKnown (db.team_applications.rows s)
      → (user_can_modify_application db more user_id app_id s).1 ≡ ok b
      → (user_can_admin_application db more user_id app_id s).1 ≡ ok c
      → (b ≡ true ↔ (
          (p : TeamPermissionLevel) × Granted user_id app_id p (grants db s) × (modifies p ≡ true)))
        × (c ≡ true ↔ (
            (p : TeamPermissionLevel) × Granted user_id app_id p (grants db s)
            × (is_admin p ≡ true)))
  user_permissions_exact user_id app_id s b c whole known h k =
      let Some : (TeamPermissionLevel → Bool) → Type 0 =
        (λ f. (p : TeamPermissionLevel) × Granted user_id app_id p (grants db s) × (f p ≡ true)) in
      let (ps, e, r) = modify-Read user_id app_id s b h in
      let (qs, e', r') = admin-Read user_id app_id s c k in
      (
        subst (λ x. x ≡ true ↔ Some modifies)
            (sym (e ∙ access_of-may_modify ps (Read-Known user_id app_id s ps known r)))
            (Read-decides modifies user_id app_id s ps whole r),
        subst (λ x. x ≡ true ↔ Some is_admin) (sym (e' ∙ access_of-may_administer qs))
            (Read-decides is_admin user_id app_id s qs whole r'),
      )
