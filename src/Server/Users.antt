-- ===== src/Server/Users.antt =====
-- server/internal/app/usecase/user_usecase.go with the Validate and GenerateRandomPassword of
-- domain/entity/user.go, and infrastructure/database/user_repository.go. bcrypt and crypto/rand are
-- parameters; gorm's relations and its columns of times are left out. The roles are a type of three,
-- so the check of the role in Validate cannot fail here.
use to_toggle.Prelude.{
  ℕ, Bool, true, false, not, ◌&&◌, Option, none, some, List, [], ◌∷◌, Text, codes, text_eq,
  is_empty, len, ltb, get_elem?, if◌then◌else◌,
}
use to_toggle.Server.Db.{invalid, Answer, ok, err, and_then, Table}
use to_toggle.Server.User.{User, TeamUser, is_root}
use to_toggle.Server.Auth.{Session, Bcrypt, set_password, get_user, get_by_username}
pub mod Revoking
mod Tests

-- User.Validate
unfoldable pub validate_user : User → Answer Unit
unfolding len
validate_user u =
    if is_empty u.name
    then err (invalid "name is required")
    else if is_empty u.username
    then err (invalid "username is required")
    else if ltb (len u.username) 3
    then err (invalid "username must be at least 3 characters long")
    else ok tt

-- GenerateRandomPassword, on the numbers that crypto/rand gives, one for each character, or not.
abbrev pub charset : Text
charset = codes "abcdefghijklmnopqrstuvwxyzABCDEFGHIJKLMNOPQRSTUVWXYZ0123456789!@#$%^&*"

abbrev pub put_char : Option ℕ → Option Text → Option Text
put_char none s = none
put_char (some c) none = none
put_char (some c) (some s) = some (c ∷ s)

unfoldable pub generate_random_password : List (Option ℕ) → Option Text
generate_random_password [] = some []
generate_random_password (none ∷ ns) = none
generate_random_password (some n ∷ ns) =
    put_char (get_elem? charset n) (generate_random_password ns)

-- A UserApplication.
pub record UserApplication : Type 0 where
  pub user_id : Text
  pub application_id : Text

-- A row that was read, or none if there is none or the read failed: Go's `x, _ :=`.
abbrev pub if_any : {A : Type 0} → Answer A → Option A
if_any (ok a) = some a
if_any (err e) = none

module _ {S : Type 0} (users : Table S User) where
  unfoldable pub insert_new : User → Option User → S → S × Answer Unit
  unfolding validate_user and_then
  insert_new u (some other) s = (s, err (invalid "username already exists"))
  insert_new u none s = and_then (s, validate_user u) (λ v. users.insert u)

  -- UserUseCase.CreateUser, of a user with its ULID.
  unfoldable pub create_user : User → S → S × Answer Unit
  unfolding insert_new
  create_user u s =
      let found = get_by_username users u.username s in insert_new u (if_any found.1) found.0

  abbrev pub is_other : Text → Option User → Bool
  is_other id none = false
  is_other id (some v) = not (text_eq v.id id)

  unfoldable pub save_unless_taken : User → Option User → S → S × Answer Unit
  unfolding validate_user and_then
  save_unless_taken u found s =
      if is_other u.id found
      then (s, err (invalid "username already exists"))
      else and_then (s, validate_user u) (λ v. users.save u)

  -- UserUseCase.UpdateUser
  unfoldable pub update_user : User → S → S × Answer Unit
  unfolding save_unless_taken and_then
  update_user u s = and_then (get_user users u.id s) (λ old s1.
      let found = get_by_username users u.username s1 in
      save_unless_taken u (if_any found.1) found.0)

  module _ (sessions : Table S Session) where
    -- UserUseCase.InvalidateSessions, sessionRepository.DeleteByUserID
    abbrev pub invalidate_sessions : Text → S → S × Answer Unit
    invalidate_sessions user_id s = sessions.delete_where (λ x. text_eq x.user_id user_id) s

    unfoldable pub save_password : Text → Option Text → Text → User → S → S × Answer Unit
    unfolding set_password and_then
    save_password id hashed new_password u s =
        and_then (s, set_password hashed new_password u)
          (λ v s1. and_then (users.save v s1) (λ done. invalidate_sessions id))

    -- UserUseCase.ChangePassword, on what bcrypt makes of the new password.
    unfoldable pub change_password_of :
        Bcrypt → Option Text → Text → Text → Text → S → S × Answer Unit
    unfolding save_password and_then
    change_password_of bcrypt hashed id old_password new_password s =
        and_then (get_user users id s) (λ u s1.
          if not (bcrypt.compare_hash u.password old_password)
          then (s1, err (invalid "current password is incorrect"))
          else save_password id hashed new_password u s1)

    module _ (members : Table S TeamUser) (owners : Table S UserApplication) where
      -- userRepository.Delete
      unfoldable pub delete_user_rows : Text → S → S × Answer Unit
      unfolding and_then
      delete_user_rows id s = and_then (owners.delete_where (λ o. text_eq o.user_id id) s) (λ a s1.
          and_then (members.delete_where (λ m. text_eq m.user_id id) s1) (λ b. users.delete id))

      -- UserUseCase.DeleteUser
      unfoldable pub delete_user : Text → S → S × Answer Unit
      unfolding delete_user_rows and_then
      delete_user id s = and_then (get_user users id s) (λ u s1.
          if is_root u
          then (s1, err (invalid "cannot delete root user"))
          else and_then (invalidate_sessions id s1) (λ done. delete_user_rows id))
