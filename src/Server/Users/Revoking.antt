-- ===== src/Server/Users/Revoking.antt =====
-- A change of password and the deletion of a user in
-- server/internal/app/usecase/user_usecase.go end the sessions of the user.
use to_toggle.Prelude.{◌≡◌, ◌≢◌, Bool, List, Text, In}
use to_toggle.Server.Db.{Table}
use to_toggle.Server.User.{User, TeamUser}
use to_toggle.Server.Auth.{Session}
use to_toggle.Server.Auth.Tokens.{LawfulAuth}
use to_toggle.Server.Users.{UserApplication}

-- The tables of the sessions and users are lawful, and the statements of a deletion on other tables
-- leave the sessions alone.
pub record LawfulUsers {S : Type 0} (users : Table S User) (sessions : Table S Session)
    (members : Table S TeamUser) (owners : Table S UserApplication) : Type 0 where
  pub auth_law : LawfulAuth sessions users
  pub owners_delete :
      (p : UserApplication → Bool) (s : S)
      → sessions.rows (owners.delete_where p s).0 ≡ sessions.rows s
  pub members_delete :
      (p : TeamUser → Bool) (s : S) → sessions.rows (members.delete_where p s).0 ≡ sessions.rows s
  pub users_delete : (k : Text) (s : S) → sessions.rows (users.delete k s).0 ≡ sessions.rows s

abbrev pub NoneOf : Text → List Session → Type 0
NoneOf user_id rows = (x : Session) → In x rows → x.user_id ≢ user_id
