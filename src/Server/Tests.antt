-- ===== src/Server/Tests.antt =====
-- The server's theorems at concrete inputs.
use to_toggle.Prelude.{
  len, ℕ, ◌≡◌, refl, inl, inr, Bool, true, false, none, some, List, [], ◌∷◌, Text, codes, In, ◌↔◌,
  text_eq, select,
}
use to_toggle.Server.Db.{find_first, ok, Table, Distinct}
use to_toggle.Server.Db.Memory.{memory, memory-Lawful}
use to_toggle.Server.Keys as Keys
use to_toggle.Server.Keys.{
  SecretKey, CreateSecretKeyResponse, rotate_existing_keys, regenerate_secret_key,
  activate_and_rotate, validate_secret_key,
}
use to_toggle.Server.Keys.Rotation.{rotate_rows, rotate_existing_keys-rotate_rows}
use to_toggle.Server.Keys.Slots.{is_current_of, is_previous_of, count, regenerate_secret_key-count}
use to_toggle.Server.Keys.Activation.{activate_and_rotate-count}
use to_toggle.Server.Keys.Access.{
  used_at, validate_secret_key_iff, validate_secret_key-rotate_existing_keys,
}

abbrev key_table : Table (List SecretKey) SecretKey
key_table = memory (λ k. k.id)

abbrev key : ℕ → Bool → Bool → SecretKey
key n active current = record {
  id = n ∷ [];
  name = codes "API Access Key";
  key_hash = 7 ∷ n ∷ [];
  application_id = codes "app";
  created_by = codes "ana";
  active = active;
  is_current = current;
  last_used_at = none;
}

abbrev hash : Text → Text
hash s = 7 ∷ s

-- A previous key, the current one, and one that waits for its approval.
abbrev three_keys : List SecretKey
three_keys = key 1 true false ∷ key 2 true true ∷ key 3 false true ∷ []

three_keys-Distinct : Distinct (λ k. k.id) three_keys
three_keys-Distinct = (((λ e. cc), ((λ e. cc), tt)), (((λ e. cc), tt), (tt, tt)))

three_hashes-Distinct : Distinct (λ k. k.key_hash) three_keys
three_hashes-Distinct = (((λ e. cc), ((λ e. cc), tt)), (((λ e. cc), tt), (tt, tt)))

rotate-runs : (rotate_existing_keys key_table (codes "app") three_keys).1 ≡ ok tt
unfolding rotate_existing_keys Keys.rotate_keys text_eq
rotate-runs = refl

rotate_existing_keys-rotate_rows_example :
    (rotate_existing_keys key_table (codes "app") three_keys).0
    ≡ rotate_rows (codes "app") three_keys
rotate_existing_keys-rotate_rows_example =
    rotate_existing_keys-rotate_rows key_table (memory-Lawful (λ k. k.id)) (codes "app") three_keys
      three_keys-Distinct rotate-runs

abbrev fresh : Keys.Fresh
fresh = record { ulid = 9 ∷ []; random_hex = some (codes "ab") }

abbrev made_key : CreateSecretKeyResponse
made_key = record {
  secret_key = record {
    id = 9 ∷ [];
    name = codes "API Access Key";
    key_hash = 7 ∷ codes "sk_ab";
    application_id = codes "app";
    created_by = codes "bob";
    active = true;
    is_current = true;
    last_used_at = none;
  };
  plain_text_key = codes "sk_ab";
}

regenerate-runs :
    (regenerate_secret_key key_table hash fresh (codes "app") (codes "bob") three_keys).1
    ≡ ok made_key
unfolding regenerate_secret_key Keys.rotate_keys text_eq len
regenerate-runs = refl

regenerate_secret_key-count_example :
    let rows' =
      (regenerate_secret_key key_table hash fresh (codes "app") (codes "bob") three_keys).0 in
    (select (is_current_of (codes "app")) rows' ≡ made_key.secret_key ∷ [])
    × (count (is_previous_of (codes "app")) rows' ≡ 1)
    × In made_key.secret_key rows'
    × (made_key.secret_key.key_hash ≡ hash made_key.plain_text_key)
unfolding text_eq
regenerate_secret_key-count_example =
    regenerate_secret_key-count key_table (memory-Lawful (λ k. k.id)) hash fresh (codes "app")
      (codes "bob") three_keys made_key three_keys-Distinct regenerate-runs

activate-runs : (activate_and_rotate key_table (3 ∷ []) (codes "app") three_keys).1 ≡ ok tt
unfolding activate_and_rotate Keys.rotate_keys text_eq find_first
activate-runs = refl

activate_and_rotate-count_example :
    let rows' = (activate_and_rotate key_table (3 ∷ []) (codes "app") three_keys).0 in
    (select (is_current_of (codes "app")) rows' ≡ key 3 true true ∷ [])
    × (count (is_previous_of (codes "app")) rows' ≡ 1)
unfolding text_eq
activate_and_rotate-count_example =
    activate_and_rotate-count key_table (memory-Lawful (λ k. k.id)) (codes "app") three_keys
      (key 3 false true) three_keys-Distinct (inr (inr (inl refl))) refl refl activate-runs

validate_secret_key_iff_example :
    ((validate_secret_key key_table hash 50 (2 ∷ []) three_keys).1
      ≡ ok (used_at 50 (key 2 true true)))
    ↔ ((k0 : SecretKey) × In k0 three_keys
        × (k0.active ≡ true)
        × (k0.key_hash ≡ hash (2 ∷ []))
        × (used_at 50 (key 2 true true) ≡ used_at 50 k0))
unfolding text_eq
validate_secret_key_iff_example =
    validate_secret_key_iff key_table (memory-Lawful (λ k. k.id)) hash 50 (2 ∷ []) three_keys
      (key 2 true true ∷ []) (used_at 50 (key 2 true true)) three_hashes-Distinct refl

validate-runs :
    (validate_secret_key key_table hash 50
      (2 ∷ [])
      (rotate_existing_keys key_table (codes "app") three_keys).0).1
    ≡ ok (used_at 50 (key 2 true false))
unfolding rotate_existing_keys validate_secret_key find_first Keys.rotate_keys text_eq
validate-runs = refl

validate_secret_key-rotate_existing_keys_example :
    (k0 : SecretKey) × In k0 three_keys
    × (k0.is_current ≡ true)
    × (k0.active ≡ true)
    × (k0.id ≡ 2 ∷ [])
    × (k0.key_hash ≡ hash (2 ∷ []))
unfolding text_eq
validate_secret_key-rotate_existing_keys_example =
    validate_secret_key-rotate_existing_keys key_table (memory-Lawful (λ k. k.id)) hash 50 (2 ∷ [])
      (codes "app") three_keys (used_at 50 (key 2 true false)) three_keys-Distinct rotate-runs
      validate-runs refl
