-- ===== src/Server/Keys/Slots.antt =====
-- An application has one current key and at most one previous key.
use to_toggle.Prelude.{
  ℕ, ◌+◌, Option, ◌≡◌, refl, sym, ap, ◌∙◌, Bool, true, not, ◌&&◌, List, [], ◌∷◌, ◌++◌, Text,
  text_eq, codes, text_eq_refl, select, length, arith, In, inl, inr, subst,
}
use to_toggle.Server.Db.{ok, and_then, and_then_ok, Table, Lawful, Distinct}
use to_toggle.Server.Keys as Keys
use to_toggle.Server.Keys.{
  SecretKey, CreateSecretKeyResponse, new_secret_key, validate, generate_secret_key, set_secret_key,
  insert_key, create_secret_key, rotate_existing_keys, regenerate_secret_key,
}
use to_toggle.Server.Keys.Rotation.{of_app, rotate_rows, rotate_existing_keys-rotate_rows}

abbrev pub is_current_of : Text → SecretKey → Bool
is_current_of app k = of_app app k && k.active && k.is_current

abbrev pub is_previous_of : Text → SecretKey → Bool
is_previous_of app k = of_app app k && k.active && not k.is_current

abbrev pub count : (SecretKey → Bool) → List SecretKey → ℕ
count p ks = length (select p ks)

pub count-rotate_rows :
    (app : Text) (ks : List SecretKey)
    → (count (is_current_of app) (rotate_rows app ks) ≡ 0)
      × (count (is_previous_of app) (rotate_rows app ks) ≡ count (is_current_of app) ks)
count-rotate_rows app [] = (refl, refl)
count-rotate_rows app (k ∷ ks) = ground (arith, count-rotate_rows app ks)

count-++ :
    (p : SecretKey → Bool) (xs ys : List SecretKey) → count p (xs ++ ys) ≡ count p xs + count p ys
count-++ p [] ys = ground arith
count-++ p (x ∷ xs) ys = ground (arith, count-++ p xs ys)

select-++ :
    (p : SecretKey → Bool) (xs ys : List SecretKey)
    → select p (xs ++ ys) ≡ select p xs ++ select p ys
select-++ p [] ys = refl
select-++ p (x ∷ xs) ys = ground (arith, select-++ p xs ys)

pub no_rows : (l : List SecretKey) → length l ≡ 0 → l ≡ []
no_rows [] h = refl
no_rows (x ∷ l) h = absurd (omega (arith, h))

-- What a creation adds.
pub record Added (hash : Text → Text) (app : Text) (active : Bool) (made : CreateSecretKeyResponse)
    : Type 0 where
  pub app_is : made.secret_key.application_id ≡ app
  pub active_is : made.secret_key.active ≡ active
  pub current_is : made.secret_key.is_current ≡ true
  pub hash_is : made.secret_key.key_hash ≡ hash made.plain_text_key

In-last : (xs : List SecretKey) (k : SecretKey) → In k (xs ++ (k ∷ []))
In-last [] k = inl refl
In-last (x ∷ xs) k = inr (In-last xs k)

Added-slots :
    (hash : Text → Text) (app : Text) (made : CreateSecretKeyResponse)
    → Added hash app true made
    → (ks : List SecretKey)
    → let l = rotate_rows app ks ++ (made.secret_key ∷ []) in
      (select (is_current_of app) l ≡ made.secret_key ∷ [])
      × (count (is_previous_of app) l ≡ count (is_current_of app) ks)
      × In made.secret_key l
      × (made.secret_key.key_hash ≡ hash made.plain_text_key)
Added-slots hash app made a ks =
    let k = made.secret_key in
    let same = ap (λ x. text_eq x app) a.app_is ∙ text_eq_refl app in
    let (none_current, previous) = count-rotate_rows app ks in
    (
      select-++ (is_current_of app) (rotate_rows app ks) (k ∷ [])
          ∙ (ap (λ l. l ++ select (is_current_of app) (k ∷ [])) (no_rows _ none_current)
              ∙ ground (arith, same, a.active_is, a.current_is)),
      count-++ (is_previous_of app) (rotate_rows app ks) (k ∷ [])
          ∙ ground (arith, same, a.active_is, a.current_is, previous),
      In-last (rotate_rows app ks) k,
      a.hash_is,
    )

module _ {S : Type 0} (t : Table S SecretKey) (law : Lawful (λ k. k.id) t) where
  insert_key-rows :
      (sk : SecretKey) (plain : Text) (s : S) (made : CreateSecretKeyResponse)
      → (insert_key t (sk, plain) s).1 ≡ ok made
      → (t.rows (insert_key t (sk, plain) s).0 ≡ t.rows s ++ (sk ∷ []))
        × (made ≡ record { secret_key = sk; plain_text_key = plain })
  unfolding insert_key and_then
  insert_key-rows sk plain s made h = ground (arith, law.insert_ok sk s)

  set_secret_key-key :
      (hash : Text → Text) (random : Option Text) (sk sk' : SecretKey) (plain : Text)
      → set_secret_key hash random sk ≡ ok (sk', plain)
      → sk' ≡ record sk { key_hash = hash plain }
  unfolding set_secret_key generate_secret_key
  set_secret_key-key hash random sk sk' plain h = ground arith

  pub create_secret_key-rows :
      (hash : Text → Text) (fresh : Keys.Fresh) (name app by : Text) (active : Bool) (s : S)
      (made : CreateSecretKeyResponse)
      → (create_secret_key t hash fresh name app by active s).1 ≡ ok made
      → (t.rows (create_secret_key t hash fresh name app by active s).0
          ≡ t.rows s ++ (made.secret_key ∷ []))
        × Added hash app active made
  unfolding create_secret_key new_secret_key
  create_secret_key-rows hash fresh name app by active s made h =
      let sk = new_secret_key fresh.ulid name app by active in
      let (u, v, q, h1) =
        and_then_ok (s, validate sk)
          (λ u s1.
            and_then (s1, set_secret_key hash fresh.random_hex sk) (λ m s2. insert_key t m s2))
          made h in
      let ((sk', plain), w, q', h2) =
        and_then_ok (s, set_secret_key hash fresh.random_hex sk) (λ m s2. insert_key t m s2) made
          h1 in
      let (r, m) = insert_key-rows sk' plain s made h2 in
      let k = set_secret_key-key hash fresh.random_hex sk sk' plain w in
      (
        ap (λ r. t.rows r.0) (q ∙ q') ∙ (r ∙ ap (λ c. t.rows s ++ (c.secret_key ∷ [])) (sym m)),
        record {
          app_is = ap (λ c. c.secret_key.application_id) m ∙ ap (λ c. c.application_id) k;
          active_is = ap (λ c. c.secret_key.active) m ∙ ap (λ c. c.active) k;
          current_is = ap (λ c. c.secret_key.is_current) m ∙ ap (λ c. c.is_current) k;
          hash_is =
              ap (λ c. c.secret_key.key_hash) m
              ∙ (ap (λ c. c.key_hash) k ∙ ap (λ c. hash c.plain_text_key) (sym m));
        },
      )

  -- After a regeneration that succeeds, the current keys of the application are exactly the one
  -- returned, which is stored under the hash of the text returned; and the application has as many
  -- previous keys as it had current ones before. The table is lawful and its primary keys are
  -- distinct.
  pub regenerate_secret_key-count :
      (hash : Text → Text) (fresh : Keys.Fresh) (app by : Text) (s : S)
      (made : CreateSecretKeyResponse)
      → Distinct (λ k. k.id) (t.rows s)
      → (regenerate_secret_key t hash fresh app by s).1 ≡ ok made
      → let rows' = t.rows (regenerate_secret_key t hash fresh app by s).0 in
        (select (is_current_of app) rows' ≡ made.secret_key ∷ [])
        × (count (is_previous_of app) rows' ≡ count (is_current_of app) (t.rows s))
        × In made.secret_key rows'
        × (made.secret_key.key_hash ≡ hash made.plain_text_key)
  unfolding regenerate_secret_key
  regenerate_secret_key-count hash fresh app by s made d h =
      let first = rotate_existing_keys t app s in
      let name = codes "API Access Key" in
      let (u, e, q, h') =
        and_then_ok first (λ u s'. create_secret_key t hash fresh name app by true s') made h in
      let (r, added) = create_secret_key-rows hash fresh name app by true first.0 made h' in
      let old = rotate_existing_keys-rotate_rows t law app s d e in
      let rows' = ap (λ x. t.rows x.0) q ∙ (r ∙ ap (λ l. l ++ (made.secret_key ∷ [])) old) in
      subst
        (λ l.
          (select (is_current_of app) l ≡ made.secret_key ∷ [])
          × (count (is_previous_of app) l ≡ count (is_current_of app) (t.rows s))
          × In made.secret_key l
          × (made.secret_key.key_hash ≡ hash made.plain_text_key))
        (sym rows') (Added-slots hash app made added (t.rows s))
