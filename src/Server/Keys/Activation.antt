-- ===== src/Server/Keys/Activation.antt =====
-- The activation of a key that waited for its approval.
use to_toggle.Prelude.{
  ◌+◌, ◌≡◌, refl, sym, ap, ◌∙◌, subst, inl, inr, Bool, true, false, List, [], ◌∷◌, Text, text_eq,
  text_eq_iff, select, In, arith, Bool-cases, if◌then◌else◌,
}
use to_toggle.Server.Db.{ok, and_then, and_then_ok, Table, Lawful, put_row, Distinct, find_first}
use to_toggle.Server.Db.Rows.{In-++, Distinct-In}
use to_toggle.Server.Db.Reads.{find_first_ok, find_first_keeps}
use to_toggle.Server.Keys.{SecretKey, get_by_id, rotate_existing_keys, activate_and_rotate}
use to_toggle.Server.Keys.Rotation.{
  of_app, rotate_row, rotate_rows, rotate_existing_keys-rotate_rows,
}
use to_toggle.Server.Keys.Slots.{is_current_of, is_previous_of, count, no_rows, count-rotate_rows}

-- Each row after the pass comes from one before it.
rotate_rows-origin :
    (app : Text) (ks : List SecretKey) (y : SecretKey)
    → In y (rotate_rows app ks)
    → (x : SecretKey) × In x ks × In y (rotate_row app x)
rotate_rows-origin app [] y m = elim m [ ]
rotate_rows-origin app (x ∷ xs) y m = elim (In-++ (rotate_row app x) (rotate_rows app xs) y m) [
  | inl i ↦ (x, inl refl, i)
  | inr i ↦ let (z, j, r) = rotate_rows-origin app xs y i in (z, inr j, r)
]

rotate_row-id : (app : Text) (x y : SecretKey) → In y (rotate_row app x) → y.id ≡ x.id
rotate_row-id app x y m = ground arith

rotate_row-waiting :
    (app : Text) (x y : SecretKey) → x.active ≡ false → In y (rotate_row app x) → y ≡ x
rotate_row-waiting app x y w m = ground arith

-- A row that is not active stays as it is.
rotate_rows-waiting :
    (app : Text) (ks : List SecretKey) (k0 y : SecretKey)
    → Distinct (λ x. x.id) ks
    → In k0 ks
    → k0.active ≡ false
    → In y (rotate_rows app ks)
    → y.id ≡ k0.id
    → y ≡ k0
rotate_rows-waiting app ks k0 y d m w i e =
    let (x, n, j) = rotate_rows-origin app ks y i in
    let x_is = Distinct-In (λ z. z.id) ks x k0 d n m (sym (rotate_row-id app x y j) ∙ e) in
    rotate_row-waiting app k0 y w (subst (λ z. In y (rotate_row app z)) x_is j)

-- Where no row passes the test, the only one that does after a row is written is this row.
select-put_row :
    (p : SecretKey → Bool) (r : SecretKey) (xs : List SecretKey)
    → p r ≡ true
    → count p xs ≡ 0
    → select p (put_row (λ k. k.id) r xs) ≡ r ∷ []
select-put_row p r [] h n = rw h refl
select-put_row p r (z ∷ xs) h n = elim (Bool-cases (p z)) [
  | inl q ↦ absurd (ground (arith, n, q))
  | inr q ↦ ground (arith, h, n, q, no_rows (select p xs), select-put_row p r xs h)
]

-- Where no row under the key of `r` passes the test, writing `r` over one of them counts `r` in.
count-put_row :
    (p : SecretKey → Bool) (r : SecretKey) (xs : List SecretKey) (x : SecretKey)
    → In x xs
    → x.id ≡ r.id
    → ((y : SecretKey) → In y xs → y.id ≡ r.id → p y ≡ false)
    → count p (put_row (λ k. k.id) r xs) ≡ (if p r then 1 else 0) + count p xs
count-put_row p r [] x m e n = elim m [ ]
count-put_row p r (z ∷ xs) x m e n = elim (Bool-cases (text_eq z.id r.id)) [
  | inl q ↦ let off = n z (inl refl) ((text_eq_iff z.id r.id).0 q) in ground (arith, q, off)
  | inr q ↦ elim m [
    | inl g ↦ let same = (text_eq_iff z.id r.id).1 (ap (λ k. k.id) (sym g) ∙ e) in cc
    | inr i ↦ ground (arith, q, count-put_row p r xs x i e (λ y j. n y (inr j)))
  ]
]

abbrev activated : SecretKey → SecretKey
activated k = record k { active = true; is_current = true }

select-activated :
    (app : Text) (ks : List SecretKey) (k : SecretKey)
    → Distinct (λ x. x.id) ks
    → In k ks
    → of_app app k ≡ true
    → k.active ≡ false
    → In k (rotate_rows app ks)
    → let l = put_row (λ x. x.id) (activated k) (rotate_rows app ks) in
      (select (is_current_of app) l ≡ activated k ∷ [])
      × (count (is_previous_of app) l ≡ count (is_current_of app) ks)
select-activated app ks k d m o w i =
    let pending : (y : SecretKey) → In y (rotate_rows app ks) → y.id ≡ k.id → y.active ≡ false =
      (λ y j e. ap (λ z. z.active) (rotate_rows-waiting app ks k y d m w j e) ∙ w) in
    let (none_current, previous) = count-rotate_rows app ks in
    (
      select-put_row (is_current_of app) (activated k) (rotate_rows app ks) (ground (arith, o))
          none_current,
      count-put_row (is_previous_of app) (activated k) (rotate_rows app ks) k i refl
            (λ y j e. ground (arith, pending y j e))
          ∙ ground (arith, o, previous),
    )

module _ {S : Type 0} (t : Table S SecretKey) (law : Lawful (λ k. k.id) t) where
  -- What ActivateAndRotateSecretKey leaves, when it succeeds on a key of the application that
  -- waits for its approval: the current keys of the application are exactly this key, made active
  -- and current and otherwise as it was, and there are as many previous keys as there were current
  -- ones. The table is lawful and its primary keys are distinct.
  pub activate_and_rotate-count :
      (app : Text) (s : S) (k0 : SecretKey)
      → Distinct (λ k. k.id) (t.rows s)
      → In k0 (t.rows s)
      → of_app app k0 ≡ true
      → k0.active ≡ false
      → (activate_and_rotate t k0.id app s).1 ≡ ok tt
      → let rows' = t.rows (activate_and_rotate t k0.id app s).0 in
        (select (is_current_of app) rows' ≡ record k0 { active = true; is_current = true } ∷ [])
        × (count (is_previous_of app) rows' ≡ count (is_current_of app) (t.rows s))
  unfolding activate_and_rotate get_by_id
  activate_and_rotate-count app s k0 d m o w h =
      let first = rotate_existing_keys t app s in
      let p : SecretKey → Bool = (λ k. text_eq k.id k0.id) in
      let (u, e, q, h1) =
        and_then_ok first (λ u s1. and_then (find_first t p s1) (λ k s2. t.save (activated k) s2))
          tt h in
      let (k, e', q', h2) =
        and_then_ok (find_first t p first.0) (λ k s2. t.save (activated k) s2) tt h1 in
      let (i, c) = find_first_ok (λ x. x.id) t law p first.0 k e' in
      let saved = law.save_ok (activated k) (find_first t p first.0).0 h2 in
      let old = rotate_existing_keys-rotate_rows t law app s d e in
      let same =
        rotate_rows-waiting app (t.rows s) k0 k d m w (subst (λ l. In k l) old i)
          ((text_eq_iff k.id k0.id).0 c) in
      let rows' =
        ap (λ x. t.rows x.0) (q ∙ q')
        ∙ (saved
            ∙ ap (put_row (λ x. x.id) (activated k))
                (find_first_keeps (λ x. x.id) t law p first.0 ∙ old)) in
      subst
        (λ l.
          (select (is_current_of app) l ≡ activated k0 ∷ [])
          × (count (is_previous_of app) l ≡ count (is_current_of app) (t.rows s)))
        (sym rows')
        (subst
          (λ z.
            let l = put_row (λ x. x.id) (activated z) (rotate_rows app (t.rows s)) in
            (select (is_current_of app) l ≡ activated k0 ∷ [])
            × (count (is_previous_of app) l ≡ count (is_current_of app) (t.rows s)))
          (sym same)
          (select-activated app (t.rows s) k0 d m o w
            (subst (λ z. In z (rotate_rows app (t.rows s))) same (subst (λ l. In k l) old i))))
