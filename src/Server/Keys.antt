-- ===== src/Server/Keys.antt =====
-- server/internal/app/domain/entity/secret_key.go, usecase/secret_key_usecase.go and
-- infrastructure/database/secret_key_repository.go: the keys with which the clients read the
-- toggles of an application. crypto/rand, SHA-256 with hex.EncodeToString, ULIDs and the clock are
-- parameters. gorm's relations and its created_at and updated_at columns are left out.
use to_toggle.Prelude.{
  ℕ, ◌+◌, Bool, true, false, not, ◌&&◌, Option, none, some, List, [], ◌∷◌, ◌++◌, Text, codes,
  text_eq, is_empty, len, ltb, select, if◌then◌else◌,
}
use to_toggle.Server.Db.{
  Fault, invalid, not_found, Answer, ok, err, and_then, Table, find_first, first_of,
}
pub mod Rotation
pub mod Slots
pub mod Activation
pub mod Access

pub record SecretKey : Type 0 where
  pub id : Text
  pub name : Text
  pub key_hash : Text
  pub application_id : Text
  pub created_by : Text
  pub active : Bool
  pub is_current : Bool
  pub last_used_at : Option ℕ

-- NewSecretKey
unfoldable pub new_secret_key : Text → Text → Text → Text → Bool → SecretKey
new_secret_key ulid name application_id created_by active = record {
  id = ulid;
  name = name;
  key_hash = [];
  application_id = application_id;
  created_by = created_by;
  active = active;
  is_current = true;
  last_used_at = none;
}

-- SecretKey.Validate
unfoldable pub validate : SecretKey → Answer Unit
validate sk =
    if is_empty sk.name
    then err (invalid "secret key name is required")
    else if ltb (len sk.name) 3
    then err (invalid "secret key name must be at least 3 characters long")
    else if is_empty sk.application_id
    then err (invalid "application ID is required")
    else if is_empty sk.created_by
    then err (invalid "created by user ID is required")
    else ok tt

pub record CreateSecretKeyResponse : Type 0 where
  pub secret_key : SecretKey
  pub plain_text_key : Text

-- What one creation takes from outside: a fresh ULID, and the hex of 32 random bytes, which
-- crypto/rand may fail to give.
pub record Fresh : Type 0 where
  pub ulid : Text
  pub random_hex : Option Text

-- GenerateSecretKey
unfoldable pub generate_secret_key : Option Text → Answer Text
generate_secret_key none = err (invalid "rand")
generate_secret_key (some hex) = ok (codes "sk_" ++ hex)

-- SecretKey.SetSecretKey: the key with its hash, and the plain text.
unfoldable pub set_secret_key : (Text → Text) → Option Text → SecretKey → Answer (SecretKey × Text)
unfolding generate_secret_key
set_secret_key hash random sk = elim (generate_secret_key random) [
  | ok plain ↦ ok (record sk { key_hash = hash plain }, plain)
  | err e ↦ err e
]

module _ {S : Type 0} (t : Table S SecretKey) where
  -- secretKeyRepository.GetByApplicationID, GetByID and GetByHash.
  unfoldable pub get_by_application_id : Text → S → S × Answer (List SecretKey)
  get_by_application_id app s = t.find (λ k. text_eq k.application_id app) s

  unfoldable pub get_by_id : Text → S → S × Answer SecretKey
  get_by_id id s = find_first t (λ k. text_eq k.id id) s

  unfoldable pub get_by_hash : Text → S → S × Answer SecretKey
  get_by_hash h s = find_first t (λ k. text_eq k.key_hash h) s

  unfoldable pub insert_key : SecretKey × Text → S → S × Answer CreateSecretKeyResponse
  unfolding and_then
  insert_key (sk, plain) s =
      and_then (t.insert sk s)
        (λ u s'. (s', ok (record { secret_key = sk; plain_text_key = plain })))

  -- SecretKeyUseCase.createSecretKey
  unfoldable pub create_secret_key :
      (Text → Text) → Fresh → Text → Text → Text → Bool → S → S × Answer CreateSecretKeyResponse
  unfolding new_secret_key validate set_secret_key insert_key and_then
  create_secret_key hash fresh name app by active s =
      let sk = new_secret_key fresh.ulid name app by active in
      and_then (s, validate sk)
        (λ u s1.
          and_then (s1, set_secret_key hash fresh.random_hex sk) (λ made s2. insert_key made s2))

  -- The body of the loop of rotateExistingKeys: what it does to one key. RevokeSecretKey deletes.
  unfoldable pub rotate_key : SecretKey → S → S × Answer Unit
  rotate_key k s =
      if not k.active
      then (s, ok tt)
      else if k.is_current
      then t.save (record k { is_current = false }) s
      else t.delete k.id s

  unfoldable pub rotate_keys : List SecretKey → S → S × Answer Unit
  unfolding and_then rotate_key
  rotate_keys [] s = (s, ok tt)
  rotate_keys (k ∷ ks) s = and_then (rotate_key k s) (λ u s'. rotate_keys ks s')

  -- SecretKeyUseCase.rotateExistingKeys
  unfoldable pub rotate_existing_keys : Text → S → S × Answer Unit
  unfolding and_then get_by_application_id
  rotate_existing_keys app s = and_then (get_by_application_id app s) (λ ks s'. rotate_keys ks s')

  -- SecretKeyUseCase.ActivateAndRotateSecretKey
  unfoldable pub activate_and_rotate : Text → Text → S → S × Answer Unit
  unfolding and_then rotate_existing_keys get_by_id
  activate_and_rotate new_id app s = and_then (rotate_existing_keys app s) (λ u s1.
      and_then (get_by_id new_id s1)
        (λ k s2. t.save (record k { active = true; is_current = true }) s2))

  -- SecretKeyUseCase.RegenerateSecretKey
  unfoldable pub regenerate_secret_key :
      (Text → Text) → Fresh → Text → Text → S → S × Answer CreateSecretKeyResponse
  unfolding and_then rotate_existing_keys create_secret_key
  regenerate_secret_key hash fresh app by s =
      and_then (rotate_existing_keys app s)
        (λ u s'. create_secret_key hash fresh (codes "API Access Key") app by true s')

  -- SecretKeyUseCase.GetSecretKeysByApplicationID
  unfoldable pub get_active_keys : Text → S → S × Answer (List SecretKey)
  unfolding and_then get_by_application_id
  get_active_keys app s =
      and_then (get_by_application_id app s) (λ ks s'. (s', ok (select (λ k. k.active) ks)))

  -- SecretKeyUseCase.ValidateSecretKey: a failure to note the use is ignored.
  unfoldable pub accept_key : ℕ → SecretKey → S → S × Answer SecretKey
  accept_key now key s =
      if not key.active
      then (s, err (invalid "secret key not found"))
      else let used = record key { last_used_at = some now } in ((t.save used s).0, ok used)

  unfoldable pub validate_secret_key : (Text → Text) → ℕ → Text → S → S × Answer SecretKey
  unfolding and_then get_by_hash accept_key
  validate_secret_key hash now plain s =
      and_then (get_by_hash (hash plain) s) (λ key s'. accept_key now key s')
