-- ===== src/Server/Auth/Tests.antt =====
-- Logins on a small database.
use to_toggle.Prelude.{
  len, ◌≡◌, ◌≢◌, refl, true, false, some, List, [], ◌∷◌, Text, codes, text_eq, arith,
}
use to_toggle.Server.Db.{Answer, ok, Table, find_first}
use to_toggle.Server.Approval.Sample.{part, part-Lawful}
use to_toggle.Server.User.{admin, User}
use to_toggle.Server.Auth.{
  set_password, Session, Moment, Bcrypt, AuthenticationResult, succeeded, refused, validate_token,
  logout, validate_password_change_token, generate_password_change_token, create_session,
}
use to_toggle.Server.Auth.Tokens.{LawfulAuth, LiveSession, validate_token_ok, logout-validate_token}
use to_toggle.Server.Auth.Passwords.{
  strategy_named, AuthManager, new_auth_manager, register_strategy, local_authenticate, login,
  change_password_first_time, initialize_root_user, get_user_count,
}
use to_toggle.Server.Auth.Login.{login-validate_token}
use to_toggle.Server.Auth.Change.{validate_password_change_token_once}

abbrev Disk : Type 0
Disk = List Session × List User

abbrev sessions : Table Disk Session
sessions = part (λ x. x.id) (λ d. d.0) (λ l d. (l, d.1))

abbrev users : Table Disk User
users = part (λ u. u.id) (λ d. d.1) (λ l d. (d.0, l))

disk-LawfulAuth : LawfulAuth sessions users
disk-LawfulAuth = record {
  sessions_law = part-Lawful (λ x. x.id) (λ d. d.0) (λ l d. (l, d.1)) (λ l d. refl);
  users_law = part-Lawful (λ u. u.id) (λ d. d.1) (λ l d. (d.0, l)) (λ l d. refl);
  sessions_find = λ p s. refl;
  sessions_insert = λ x s. refl;
  sessions_delete = λ k s. refl;
  sessions_delete_where = λ p s. refl;
  users_find = λ p s. refl;
  users_save = λ u s. refl;
}

-- A hash that tells texts apart, and a comparison with it.
abbrev hash : Text → Text
hash t = 0 ∷ t

abbrev bcrypt : Bcrypt
bcrypt = record { compare_hash = λ h p. text_eq h (hash p) }

abbrev ana : User
ana = record {
  id = codes "u1";
  name = codes "Ana";
  username = codes "ana";
  password = hash (codes "secret");
  role = admin;
  must_change_password = false;
  active = true;
}

abbrev disk : Disk
disk = ([], ana ∷ [])

abbrev manager : AuthManager Disk
manager =
    register_strategy (codes "local") (local_authenticate sessions users bcrypt) new_auth_manager

abbrev at_noon : Moment
at_noon = record { now = 43200; ulid = codes "s1"; random_hex = some (codes "f00d") }

abbrev logged_in : Disk × Answer AuthenticationResult
logged_in = login sessions users hash manager at_noon (codes "ana") (codes "secret") disk

login_succeeds : logged_in.1 ≡ ok (succeeded ana (codes "f00d"))
unfolding login text_eq local_authenticate find_first
login_succeeds = refl

login-validate_token_example :
    (validate_token hash sessions users 50000 (codes "f00d") logged_in.0).1 ≡ ok ana
unfolding strategy_named text_eq
login-validate_token_example =
    login-validate_token hash sessions users disk-LawfulAuth manager bcrypt at_noon (codes "ana")
      (codes "secret") ana (codes "f00d") disk refl (λ p s. (_, refl)) (λ p s. (_, refl)) (tt, tt)
      refl (λ x m. elim m [ ]) refl login_succeeds 50000 (omega arith)

validate_token_ok_example : LiveSession hash logged_in.0.0 (ana ∷ []) 50000 (codes "f00d") ana
unfolding validate_token find_first login text_eq local_authenticate
validate_token_ok_example =
    validate_token_ok hash sessions users disk-LawfulAuth 50000 (codes "f00d") ana logged_in.0 refl

logout-validate_token_example :
    (validate_token hash sessions users 50000
      (codes "f00d")
      (logout hash sessions (codes "f00d") logged_in.0).0).1
    ≢ ok ana
unfolding login text_eq local_authenticate find_first logout
logout-validate_token_example =
    logout-validate_token hash sessions users disk-LawfulAuth (codes "f00d") logged_in.0 _ (tt, tt)
      refl refl 50000 ana

abbrev new_user : User
new_user = record ana { must_change_password = true }

abbrev invited : Disk
invited = (generate_password_change_token hash sessions at_noon (codes "u1") ([], new_user ∷ [])).0

validate_password_change_token_once_example :
    (validate_password_change_token hash sessions users 44000
      (codes "f00d")
      (validate_password_change_token hash sessions users 43300 (codes "f00d") invited).0).1
    ≢ ok (codes "u1", codes "ana")
unfolding create_session validate_password_change_token find_first text_eq
validate_password_change_token_once_example =
    validate_password_change_token_once hash sessions users disk-LawfulAuth 43300 (codes "f00d")
      (codes "u1", codes "ana") invited (tt, tt) (λ k s. refl) refl 44000 (codes "u1", codes "ana")

first_login_gets_no_session :
    login sessions users hash manager at_noon (codes "ana") (codes "secret") ([], new_user ∷ [])
    ≡ (([], new_user ∷ []), ok (succeeded new_user []))
unfolding login text_eq local_authenticate find_first
first_login_gets_no_session = refl

wrong_password_refused :
    (login sessions users hash manager at_noon (codes "ana") (codes "guess") disk).1
    ≡ ok (refused (codes "Invalid username or password"))
unfolding login text_eq local_authenticate find_first
wrong_password_refused = refl

change_ends_the_sessions :
    change_password_first_time sessions users
      (λ s. (s, ok tt))
      true
      (some (hash (codes "better")))
      (codes "u1")
      (codes "better")
      invited
    ≡ (([], record ana { password = hash (codes "better") } ∷ []), ok tt)
unfolding change_password_first_time find_first create_session text_eq set_password len
change_ends_the_sessions = refl

root_is_made_once :
    (get_user_count sessions users
      (initialize_root_user sessions users
        (λ t s. (s, ok tt))
        true
        (codes "u0")
        (some [])
        (some (codes "first"))
        (initialize_root_user sessions users
          (λ t s. (s, ok tt))
          true
          (codes "u0")
          (some [])
          (some (codes "first"))
          ([], [])).0).0).1
    ≡ ok 1
unfolding get_user_count initialize_root_user len
root_is_made_once = refl
