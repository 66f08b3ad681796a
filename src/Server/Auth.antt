-- ===== src/Server/Auth.antt =====
-- server/internal/app/domain/entity/session.go, usecase/auth_usecase.go, domain/auth,
-- infrastructure/database/session_repository.go, and of domain/entity/user.go the password: who is
-- logged in. SHA-256 with hex.EncodeToString, bcrypt, crypto/rand, ULIDs, the clock in seconds and
-- the file of the first password are parameters.
use to_toggle.Prelude.{
  ℕ, ◌+◌, ◌*◌, Bool, true, false, not, ◌&&◌, ◌||◌, Option, none, some, List, [], ◌∷◌, Text, codes,
  text_eq, is_empty, is_nil, len, length, ltb, if◌then◌else◌,
}
use to_toggle.Server.Db.{
  Fault, not_found, invalid, Answer, ok, err, and_then, rename_error, if_found, Table, find_first,
}
use to_toggle.Server.User.{UserRole, root, User, is_root}
pub mod Tokens
pub mod Passwords
pub mod Login
pub mod Live
pub mod Change
mod Tests

pub data SessionPurpose : Type 0 where
  auth password_change : SessionPurpose

pub record Session : Type 0 where
  pub id : Text
  pub token_hash : Text
  pub user_id : Text
  pub purpose : SessionPurpose
  pub expires_at : ℕ

abbrev pub is_auth : SessionPurpose → Bool
is_auth auth = true
is_auth password_change = false

-- Session.IsExpired
abbrev pub is_expired : ℕ → Session → Bool
is_expired now x = ltb x.expires_at now

abbrev pub auth_session_ttl : ℕ
auth_session_ttl = 604800

abbrev pub password_change_token_ttl : ℕ
password_change_token_ttl = 3600

-- What one call takes from outside: the time, a fresh ULID, and the hex of 32 random bytes, which
-- crypto/rand may fail to give.
pub record Moment : Type 0 where
  pub now : ℕ
  pub ulid : Text
  pub random_hex : Option Text

-- generateSessionToken
abbrev pub generate_session_token : Moment → Answer Text
generate_session_token w = elim w.random_hex [ none ↦ err (invalid "rand") | some hex ↦ ok hex ]

-- NewSession, with the id that BeforeCreate fills in: the session of a raw token.
abbrev pub new_session : (Text → Text) → Moment → Text → SessionPurpose → ℕ → Text → Session
new_session hash w user_id purpose ttl raw = record {
  id = w.ulid;
  token_hash = hash raw;
  user_id = user_id;
  purpose = purpose;
  expires_at = w.now + ttl;
}

-- AuthenticationResult: with Success its User and Token, or else its Error.
pub data AuthenticationResult : Type 0 where
  refused : Text → AuthenticationResult
  succeeded : User → Text → AuthenticationResult

-- bcrypt: the hash of a password, with a salt of its own each time, and its comparison.
pub record Bcrypt : Type 0 where
  pub compare_hash : Text → Text → Bool

-- User.SetPassword, on what bcrypt answers.
unfoldable pub set_password : Option Text → Text → User → Answer User
set_password hashed password u =
    if ltb (len password) 4
    then err (invalid "password must be at least 4 characters long")
    else elim hashed [ none ↦ err (invalid "bcrypt") | some h ↦ ok (record u { password = h }) ]

module _ {S : Type 0} (users : Table S User) where
  -- userRepository.GetByID and GetByUsername, on the user's own columns.
  abbrev pub get_user : Text → S → S × Answer User
  get_user user_id s = find_first users (λ u. text_eq u.id user_id) s

  abbrev pub get_by_username : Text → S → S × Answer User
  get_by_username username s = find_first users (λ u. text_eq u.username username) s

module _ {S : Type 0} (hash : Text → Text) (sessions : Table S Session) where
  -- sessionRepository.GetByTokenHash
  abbrev pub get_by_token_hash : Text → S → S × Answer Session
  get_by_token_hash token s = find_first sessions (λ x. text_eq x.token_hash (hash token)) s

  -- sessionRepository.DeleteExpired
  abbrev pub delete_expired : ℕ → S → S × Answer Unit
  delete_expired now s = sessions.delete_where (is_expired now) s

  unfoldable pub store_session : Session → Text → S → S × Answer Text
  unfolding and_then
  store_session x raw s = and_then (sessions.insert x s) (λ u s'. (s', ok raw))

  -- AuthUseCase.createSession
  unfoldable pub create_session : Moment → Text → SessionPurpose → ℕ → S → S × Answer Text
  unfolding store_session and_then
  create_session w user_id purpose ttl s =
      and_then (s, generate_session_token w)
        (λ raw s'. store_session (new_session hash w user_id purpose ttl raw) raw s')

  -- AuthUseCase.Logout
  unfoldable pub logout : Text → S → S × Answer Unit
  unfolding if_found
  logout token s =
      if is_empty token
      then (s, ok tt)
      else if_found (get_by_token_hash token s) (λ x s'. sessions.delete x.id s')
          (λ s'. (s', ok tt))

  -- AuthUseCase.GeneratePasswordChangeToken
  abbrev pub generate_password_change_token : Moment → Text → S → S × Answer Text
  generate_password_change_token w user_id s =
      create_session w user_id password_change password_change_token_ttl s

  module _ (users : Table S User) where
    unfoldable pub accept_user : User → S → S × Answer User
    accept_user u s = if not u.active then (s, err (invalid "account disabled")) else (s, ok u)

    unfoldable pub accept_session : ℕ → Session → S → S × Answer User
    unfolding accept_user and_then
    accept_session now x s =
        if not (is_auth x.purpose)
        then (s, err (invalid "invalid token"))
        else if is_expired now x
        then ((sessions.delete x.id s).0, err (invalid "token expired"))
        else and_then (get_user users x.user_id s) accept_user

    -- AuthUseCase.ValidateToken
    unfoldable pub validate_token : ℕ → Text → S → S × Answer User
    unfolding accept_session rename_error and_then
    validate_token now token s =
        if is_empty token
        then (s, err (invalid "token is required"))
        else and_then (rename_error (invalid "invalid token") (get_by_token_hash token s))
            (accept_session now)

    unfoldable pub use_up : Session → User → S → S × Answer (Text × Text)
    use_up x u s =
        if not u.must_change_password
        then (s, err (invalid "password change no longer required"))
        else ((sessions.delete x.id s).0, ok (u.id, u.username))

    unfoldable pub accept_change : ℕ → Session → S → S × Answer (Text × Text)
    unfolding use_up rename_error and_then
    accept_change now x s =
        if is_auth x.purpose
        then (s, err (invalid "invalid token type"))
        else if is_expired now x
        then ((sessions.delete x.id s).0, err (invalid "token expired"))
        else and_then (rename_error (invalid "user not found") (get_user users x.user_id s))
            (use_up x)

    -- AuthUseCase.ValidatePasswordChangeToken
    unfoldable pub validate_password_change_token : ℕ → Text → S → S × Answer (Text × Text)
    unfolding accept_change rename_error and_then
    validate_password_change_token now token s =
        if is_empty token
        then (s, err (invalid "token is required"))
        else and_then (rename_error (invalid "invalid token") (get_by_token_hash token s))
            (accept_change now)
