-- ===== src/Server/Keys/Rotation.antt =====
-- The loop of rotateExistingKeys does in many statements what one pass over the rows does.
use to_toggle.Prelude.{
  ◌≡◌, ◌≢◌, refl, sym, ap, ◌∙◌, inl, inr, Bool, true, false, not, ◌||◌, List, [], ◌∷◌, ◌++◌, Text,
  text_eq, select, All, arith, Bool-cases, if◌then◌else◌,
}
use to_toggle.Server.Db.{ok, and_then_ok, Table, Lawful, put_row, remove_row, Fresh, Distinct}
use to_toggle.Server.Db.Rows.{++_assoc, All-++, All-map, remove_row-middle, put_row-middle}
use to_toggle.Server.Keys.{
  SecretKey, rotate_key, rotate_keys, get_by_application_id, rotate_existing_keys,
}

abbrev pub of_app : Text → SecretKey → Bool
of_app app k = text_eq k.application_id app

-- What becomes of one row: the current key is the previous one from now on, and the key that was
-- the previous one is gone.
abbrev pub rotate_row : Text → SecretKey → List SecretKey
rotate_row app k =
    if not (of_app app k) || not k.active
    then k ∷ []
    else if k.is_current
    then record k { is_current = false } ∷ []
    else []

abbrev pub rotate_rows : Text → List SecretKey → List SecretKey
rotate_rows app [] = []
rotate_rows app (k ∷ ks) = rotate_row app k ++ rotate_rows app ks

-- The loop on rows instead of a database.
abbrev touch : SecretKey → List SecretKey → List SecretKey
touch k rows =
    if not k.active
    then rows
    else if k.is_current
    then put_row (λ x. x.id) (record k { is_current = false }) rows
    else remove_row (λ x. x.id) k.id rows

abbrev touch_all : List SecretKey → List SecretKey → List SecretKey
touch_all [] rows = rows
touch_all (k ∷ ks) rows = touch_all ks (touch k rows)

touch-middle :
    (app : Text) (pre : List SecretKey) (k : SecretKey) (ks : List SecretKey)
    → of_app app k ≡ true
    → Fresh (λ x. x.id) k.id pre
    → Fresh (λ x. x.id) k.id ks
    → touch k (pre ++ (k ∷ ks)) ≡ pre ++ (rotate_row app k ++ ks)
touch-middle app pre k ks m f g = ground (
  arith,
  m,
  put_row-middle (λ x. x.id) (record k { is_current = false }) pre k ks refl f,
  remove_row-middle (λ x. x.id) pre k ks f g,
)

rotate_row-id : (app : Text) (k : SecretKey) → All (λ x. x.id ≡ k.id) (rotate_row app k)
rotate_row-id app k = ground arith

-- A key of the rows that are still to come is on none of the rows before them.
abbrev Before : List SecretKey → List SecretKey → Type 0
Before pre rest = All (λ k. Fresh (λ x. x.id) k.id pre) rest

Before-rotate_row :
    (app : Text) (pre : List SecretKey) (k : SecretKey) (ks : List SecretKey)
    → Before pre ks
    → Fresh (λ x. x.id) k.id ks
    → Before (pre ++ rotate_row app k) ks
Before-rotate_row app pre k [] b f = tt
Before-rotate_row app pre k (y ∷ ks) (p, b) (n, f) = (
  All-++ (λ x. x.id ≢ y.id) pre (rotate_row app k) p
      (All-map (λ x. x.id ≡ k.id) (λ x. x.id ≢ y.id) (λ x e q. n (sym q ∙ e)) (rotate_row app k)
        (rotate_row-id app k)),
  Before-rotate_row app pre k ks b f,
)

rotate_row-other : (app : Text) (k : SecretKey) → of_app app k ≡ false → rotate_row app k ≡ k ∷ []
rotate_row-other app k m = ground (arith, m)

touch_all-rotate_rows :
    (app : Text) (pre rest : List SecretKey)
    → Before pre rest
    → Distinct (λ x. x.id) rest
    → touch_all (select (of_app app) rest) (pre ++ rest) ≡ pre ++ rotate_rows app rest
touch_all-rotate_rows app pre [] b d = refl
touch_all-rotate_rows app pre (k ∷ ks) (f, b) (g, d) =
    let later =
      touch_all-rotate_rows app (pre ++ rotate_row app k) ks (Before-rotate_row app pre k ks b g)
        d in
    let end = ++_assoc pre (rotate_row app k) (rotate_rows app ks) in
    elim (Bool-cases (of_app app k)) [
      | inl m ↦
          ap
            (λ c.
              touch_all (if c then k ∷ select (of_app app) ks else select (of_app app) ks)
                (pre ++ (k ∷ ks)))
            m
          ∙ (ap (touch_all (select (of_app app) ks))
                (touch-middle app pre k ks m f g ∙ sym (++_assoc pre (rotate_row app k) ks))
              ∙ (later ∙ end))
      | inr m ↦
          ap
            (λ c.
              touch_all (if c then k ∷ select (of_app app) ks else select (of_app app) ks)
                (pre ++ (k ∷ ks)))
            m
          ∙ (ap (touch_all (select (of_app app) ks)) (
                ap (λ r. pre ++ (r ++ ks)) (sym (rotate_row-other app k m))
                ∙ sym (++_assoc pre (rotate_row app k) ks))
              ∙ (later ∙ end))
    ]

Before-[] : (rest : List SecretKey) → Before [] rest
Before-[] [] = tt
Before-[] (k ∷ ks) = (tt, Before-[] ks)

module _ {S : Type 0} (t : Table S SecretKey) (law : Lawful (λ k. k.id) t) where
  rotate_key-touch :
      (k : SecretKey) (s : S)
      → (rotate_key t k s).1 ≡ ok tt
      → t.rows (rotate_key t k s).0 ≡ touch k (t.rows s)
  unfolding rotate_key
  rotate_key-touch k s h =
      ground (arith, law.save_ok (record k { is_current = false }) s, law.delete_ok k.id s)

  rotate_keys-touch_all :
      (ks : List SecretKey) (s : S)
      → (rotate_keys t ks s).1 ≡ ok tt
      → t.rows (rotate_keys t ks s).0 ≡ touch_all ks (t.rows s)
  unfolding rotate_keys
  rotate_keys-touch_all [] s h = refl
  rotate_keys-touch_all (k ∷ ks) s h =
      let (u, e, q, h') = and_then_ok (rotate_key t k s) (λ u s'. rotate_keys t ks s') tt h in
      ap (λ r. t.rows r.0) q
      ∙ (rotate_keys-touch_all ks (rotate_key t k s).0 h'
          ∙ ap (touch_all ks) (rotate_key-touch k s e))

  -- On a lawful table with distinct primary keys, when rotateExistingKeys succeeds, the rows are
  -- those of one pass: of the keys of the
  -- application that are active, the current ones are previous now, and the others are gone; a
  -- pending key, and every other application's, is as it was.
  pub rotate_existing_keys-rotate_rows :
      (app : Text) (s : S)
      → Distinct (λ k. k.id) (t.rows s)
      → (rotate_existing_keys t app s).1 ≡ ok tt
      → t.rows (rotate_existing_keys t app s).0 ≡ rotate_rows app (t.rows s)
  unfolding rotate_existing_keys get_by_application_id
  rotate_existing_keys-rotate_rows app s d h =
      let found = get_by_application_id t app s in
      let (ks, e, q, h') = and_then_ok found (λ ks s'. rotate_keys t ks s') tt h in
      ap (λ r. t.rows r.0) q
      ∙ (rotate_keys-touch_all ks found.0 h'
          ∙ (ap (touch_all ks) (law.find_keeps (of_app app) s)
              ∙ (ap (λ l. touch_all l (t.rows s)) (law.find_ok (of_app app) s ks e)
                  ∙ touch_all-rotate_rows app [] (t.rows s) (Before-[] (t.rows s)) d)))
