-- ===== src/Server/Keys/Access.antt =====
-- Which keys ValidateSecretKey accepts.
use to_toggle.Prelude.{
  ℕ, ◌≡◌, refl, sym, ap, ◌∙◌, subst, inl, inr, ◌↔◌, Bool, true, some, List, [], ◌∷◌, Text, text_eq,
  text_eq_iff, In, arith,
}
use to_toggle.Server.Db.{ok, and_then_ok, and_then-at, Table, Lawful, Distinct, find_first}
use to_toggle.Server.Db.Rows.{In-++}
use to_toggle.Server.Db.Reads.{find_first_ok, find_first_unique}
use to_toggle.Server.Keys.{
  SecretKey, get_by_hash, accept_key, validate_secret_key, rotate_existing_keys,
}
use to_toggle.Server.Keys.Rotation.{
  of_app, rotate_row, rotate_rows, rotate_existing_keys-rotate_rows,
}

-- The row as ValidateSecretKey returns it.
abbrev pub used_at : ℕ → SecretKey → SecretKey
used_at now k = record k { last_used_at = some now }

rotate_row-kept :
    (app : Text) (k0 k : SecretKey)
    → In k (rotate_row app k0)
    → of_app app k ≡ true
    → k.active ≡ true
    → (k0.is_current ≡ true) × (k0.active ≡ true) × (k0.id ≡ k.id) × (k0.key_hash ≡ k.key_hash)
rotate_row-kept app k0 k m o a = ground arith

rotate_rows-kept :
    (app : Text) (ks : List SecretKey) (k : SecretKey)
    → In k (rotate_rows app ks)
    → of_app app k ≡ true
    → k.active ≡ true
    → (k0 : SecretKey) × In k0 ks
      × (k0.is_current ≡ true)
      × (k0.active ≡ true)
      × (k0.id ≡ k.id)
      × (k0.key_hash ≡ k.key_hash)
rotate_rows-kept app [] k m o a = elim m [ ]
rotate_rows-kept app (x ∷ xs) k m o a = elim (In-++ (rotate_row app x) (rotate_rows app xs) k m) [
  | inl i ↦ let (c, b, e, f) = rotate_row-kept app x k i o a in (x, inl refl, c, b, e, f)
  | inr i ↦ let (k0, j, c, b, e, f) = rotate_rows-kept app xs k i o a in (k0, inr j, c, b, e, f)
]

module _ {S : Type 0} (t : Table S SecretKey) (law : Lawful (λ k. k.id) t) where
  accept_key_active :
      (now : ℕ) (key : SecretKey) (s : S)
      → key.active ≡ true
      → (accept_key t now key s).1 ≡ ok (used_at now key)
  unfolding accept_key
  accept_key_active now key s a = ground (arith, a)

  accept_key_ok :
      (now : ℕ) (key k : SecretKey) (s : S)
      → (accept_key t now key s).1 ≡ ok k
      → (key.active ≡ true) × (k ≡ used_at now key)
  unfolding accept_key
  accept_key_ok now key k s h = ground arith

  -- A text is accepted only if it hashes to the key of a stored row that is active: a key that waits
  -- for its approval authenticates nothing. The row comes back with its time of use noted.
  validate_secret_key_sound :
      (hash : Text → Text) (now : ℕ) (plain : Text) (s : S) (k : SecretKey)
      → (validate_secret_key t hash now plain s).1 ≡ ok k
      → (k0 : SecretKey) × In k0 (t.rows s)
        × (k0.active ≡ true)
        × (k0.key_hash ≡ hash plain)
        × (k ≡ used_at now k0)
  unfolding validate_secret_key get_by_hash
  validate_secret_key_sound hash now plain s k h =
      let p : SecretKey → Bool = (λ x. text_eq x.key_hash (hash plain)) in
      let (k0, e, q, h') = and_then_ok (find_first t p s) (λ key s'. accept_key t now key s') k h in
      let (m, c) = find_first_ok (λ x. x.id) t law p s k0 e in
      let (a, u) = accept_key_ok now k0 k (find_first t p s).0 h' in
      (k0, m, a, (text_eq_iff k0.key_hash (hash plain)).0 c, u)

  -- On a lawful table, the keys that a text authenticates as, when hashes are distinct and the read
  -- does not fail: the
  -- active row stored under its hash, even if the time of use cannot be written.
  pub validate_secret_key_iff :
      (hash : Text → Text) (now : ℕ) (plain : Text) (s : S) (l : List SecretKey) (k : SecretKey)
      → Distinct (λ x. x.key_hash) (t.rows s)
      → (t.find (λ x. text_eq x.key_hash (hash plain)) s).1 ≡ ok l
      → ((validate_secret_key t hash now plain s).1 ≡ ok k) ↔ (
          (k0 : SecretKey) × In k0 (t.rows s)
          × (k0.active ≡ true)
          × (k0.key_hash ≡ hash plain)
          × (k ≡ used_at now k0))
  unfolding validate_secret_key get_by_hash accept_key
  validate_secret_key_iff hash now plain s l k d e =
      let p : SecretKey → Bool = (λ x. text_eq x.key_hash (hash plain)) in
      (
        validate_secret_key_sound hash now plain s k,
        (λ (k0, m, a, c, u).
            and_then-at (find_first t p s) (λ key s'. accept_key t now key s') k0
              (find_first_unique (λ x. x.id) t law (λ x. x.key_hash) p s l k0
                (λ y z f g.
                  (text_eq_iff y.key_hash (hash plain)).0 f
                  ∙ sym ((text_eq_iff z.key_hash (hash plain)).0 g))
                d e m ((text_eq_iff k0.key_hash (hash plain)).1 c))
            ∙ accept_key_active now k0 (find_first t p s).0 a
            ∙ ap ok (sym u)),
      )

  -- On a lawful table with distinct primary keys, a key of the application that still
  -- authenticates once rotateExistingKeys has succeeded was
  -- the current one before: the key that was the previous one is revoked.
  pub validate_secret_key-rotate_existing_keys :
      (hash : Text → Text) (now : ℕ) (plain app : Text) (s : S) (k : SecretKey)
      → Distinct (λ x. x.id) (t.rows s)
      → (rotate_existing_keys t app s).1 ≡ ok tt
      → (validate_secret_key t hash now plain (rotate_existing_keys t app s).0).1 ≡ ok k
      → of_app app k ≡ true
      → (k0 : SecretKey) × In k0 (t.rows s)
        × (k0.is_current ≡ true)
        × (k0.active ≡ true)
        × (k0.id ≡ k.id)
        × (k0.key_hash ≡ hash plain)
  validate_secret_key-rotate_existing_keys hash now plain app s k d r h o =
      let (x, m, a, c, u) =
        validate_secret_key_sound hash now plain (rotate_existing_keys t app s).0 k h in
      let m' = subst (λ l. In x l) (rotate_existing_keys-rotate_rows t law app s d r) m in
      let (k0, i, b, e, f, g) =
        rotate_rows-kept app (t.rows s) x m' (ap (of_app app) (sym u) ∙ o) a in
      (k0, i, b, e, f ∙ ap (λ y. y.id) (sym u), g ∙ c)
