-- ===== src/Server/Auth/Passwords.antt =====
-- The logins and the passwords of server/internal/app/usecase/auth_usecase.go and domain/auth.
use to_toggle.Prelude.{
  ℕ, Bool, true, false, not, ◌||◌, Option, none, some, List, [], ◌∷◌, Text, codes, text_eq,
  is_empty, is_nil, length, if◌then◌else◌,
}
use to_toggle.Server.Db.{invalid, Answer, ok, err, and_then, if_found, Table}
use to_toggle.Server.User.{root, User, is_root}
use to_toggle.Server.Auth.{
  Moment, auth, auth_session_ttl, Bcrypt, AuthenticationResult, refused, succeeded, set_password,
  Session, create_session, get_user, get_by_username,
}

-- A strategy answers to a name and a password.
abbrev pub Strategy : Type 0 → Type 0
Strategy S = Text → Text → S → S × Answer AuthenticationResult

-- AuthManager
pub record AuthManager (S : Type 0) : Type 0 where
  pub strategies : List (Text × Strategy S)
  pub default_name : Text

-- NewAuthManager, RegisterStrategy, SetDefault
abbrev pub new_auth_manager : {S : Type 0} → AuthManager S
new_auth_manager = record { strategies = []; default_name = codes "local" }

abbrev pub register_strategy : {S : Type 0} → Text → Strategy S → AuthManager S → AuthManager S
register_strategy name f am = record am { strategies = (name, f) ∷ am.strategies }

abbrev pub set_default : {S : Type 0} → Text → AuthManager S → AuthManager S
set_default name am = record am { default_name = name }

unfoldable pub strategy_named : {S : Type 0} → Text → List (Text × Strategy S) → Option (Strategy S)
strategy_named name [] = none
strategy_named name ((n, f) ∷ fs) =
    let rest = strategy_named name fs in if text_eq n name then some f else rest

-- AuthManager.GetDefaultStrategy
abbrev pub get_default_strategy : {S : Type 0} → AuthManager S → Option (Strategy S)
get_default_strategy am = strategy_named am.default_name am.strategies

unfoldable pub check_user : Bcrypt → Text → User → AuthenticationResult
check_user bcrypt password u =
    if not (bcrypt.compare_hash u.password password)
    then refused (codes "Invalid username or password")
    else if not u.active
    then refused (codes "Invalid username or password")
    else succeeded u []

module _ {S : Type 0} (sessions : Table S Session) (users : Table S User) where
  -- LocalAuthStrategy.Authenticate
  unfoldable pub local_authenticate : Bcrypt → Strategy S
  unfolding check_user if_found
  local_authenticate bcrypt username password s =
      if is_empty username
      then (s, ok (refused (codes "Username is required")))
      else if is_empty password
      then (s, ok (refused (codes "Password is required")))
      else if_found (get_by_username users username s)
          (λ u s'. (s', ok (check_user bcrypt password u)))
          (λ s'. (s', ok (refused (codes "Invalid username or password"))))

  -- AuthUseCase.Authenticate
  unfoldable pub authenticate : AuthManager S → Strategy S
  unfolding strategy_named
  authenticate am username password s = elim (get_default_strategy am) [
    | none ↦ (s, err (invalid "no authentication strategy available"))
    | some f ↦ f username password s
  ]

  unfoldable pub start_session :
      (Text → Text) → Moment → AuthenticationResult → S → S × Answer AuthenticationResult
  unfolding create_session and_then
  start_session hash w (refused message) s = (s, ok (refused message))
  start_session hash w (succeeded u token) s =
      if u.must_change_password
      then (s, ok (succeeded u token))
      else and_then (create_session hash sessions w u.id auth auth_session_ttl s)
          (λ raw s'. (s', ok (succeeded u raw)))

  -- AuthUseCase.Login
  unfoldable pub login :
      (Text → Text) → AuthManager S → Moment → Text → Text → S → S × Answer AuthenticationResult
  unfolding authenticate start_session and_then
  login hash am w username password s =
      and_then (authenticate am username password s) (start_session hash w)

  -- os.Remove of the file of the first password, if one is configured: an error but that the file
  -- is not there.
  unfoldable pub remove_root_file : (S → S × Answer Unit) → Bool → User → S → S × Answer Unit
  remove_root_file remove_file configured u s =
      if is_root u then (if configured then remove_file s else (s, ok tt)) else (s, ok tt)

  unfoldable pub change_password :
      (S → S × Answer Unit) → Bool → Option Text → Text → Text → User → S → S × Answer Unit
  unfolding remove_root_file and_then
  change_password remove_file configured hashed user_id password u s =
      if not u.must_change_password
      then (s, err (invalid "password change not required for this user"))
      else and_then (s, set_password hashed password u)
          (λ u1 s1.
            let u2 = record u1 { must_change_password = false } in
            and_then (users.save u2 s1) (λ n s2.
              and_then (remove_root_file remove_file configured u2 s2)
                (λ n s3. sessions.delete_where (λ x. text_eq x.user_id user_id) s3)))

  -- AuthUseCase.ChangePasswordFirstTime
  unfoldable pub change_password_first_time :
      (S → S × Answer Unit) → Bool → Option Text → Text → Text → S → S × Answer Unit
  unfolding change_password and_then
  change_password_first_time remove_file configured hashed user_id password s =
      if is_empty user_id || is_empty password
      then (s, err (invalid "user ID and new password are required"))
      else and_then (get_user users user_id s)
          (change_password remove_file configured hashed user_id password)

  -- AuthUseCase.GetUserCount
  unfoldable pub get_user_count : S → S × Answer ℕ
  unfolding and_then
  get_user_count s = and_then (users.find (λ u. true) s) (λ l s'. (s', ok (length l)))

  -- gorm writes the column's default, true, for an `active` that is not set.
  unfoldable pub create_root :
      (Text → S → S × Answer Unit) → Bool → Text → Option Text → Text → S → S × Answer Unit
  unfolding set_password and_then
  create_root write_file configured ulid hashed password s =
      let blank : User = record {
        id = ulid;
        name = codes "Root";
        username = codes "root";
        password = [];
        role = root;
        must_change_password = true;
        active = true;
      } in
      and_then (s, set_password hashed password blank)
        (λ u s1.
          and_then (users.insert u s1)
            (λ n s2. if configured then write_file password s2 else (s2, ok tt)))

  -- AuthUseCase.InitializeRootUser
  unfoldable pub initialize_root_user :
      (Text → S → S × Answer Unit) → Bool → Text → Option Text → Option Text → S → S × Answer Unit
  unfolding create_root and_then
  initialize_root_user write_file configured ulid hashed random_password s =
      and_then (users.find (λ u. true) s) (λ l s1.
        if not (is_nil l) then (s1, ok tt) else elim random_password [
          | none ↦ (s1, err (invalid "rand"))
          | some password ↦ create_root write_file configured ulid hashed password s1
        ])
