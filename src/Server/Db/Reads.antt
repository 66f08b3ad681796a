-- ===== src/Server/Db/Reads.antt =====
-- Reading the first row that a condition holds of.
use to_toggle.Prelude.{◌≡◌, refl, sym, ap, ◌∙◌, subst, Bool, true, List, [], ◌∷◌, Text, In, inl}
use to_toggle.Server.Db.{Answer, ok, err, Table, Lawful, Distinct, first_of, find_first}
use to_toggle.Server.Db.Rows.{In-select, Distinct-In}

first_of_ok :
    {S R : Type 0} (r : S × Answer (List R)) (x : R)
    → (first_of r).1 ≡ ok x
    → (rest : List R) × (r.1 ≡ ok (x ∷ rest))
unfolding first_of
first_of_ok (s, ok []) x h = cc
first_of_ok (s, ok (r ∷ rs)) x h = (rs, cc)
first_of_ok (s, err e) x h = cc

first_of_state : {S R : Type 0} (r : S × Answer (List R)) → (first_of r).0 ≡ r.0
unfolding first_of
first_of_state (s, ok []) = refl
first_of_state (s, ok (r ∷ rs)) = refl
first_of_state (s, err e) = refl

first_of_cons : {S R : Type 0} (s : S) (y : R) (ys : List R) → (first_of (s, ok (y ∷ ys))).1 ≡ ok y
unfolding first_of
first_of_cons s y ys = refl

first_of_unique :
    {S R : Type 0} (r : S × Answer (List R)) (l : List R) (x : R)
    → r.1 ≡ ok l
    → In x l
    → ((y : R) → In y l → y ≡ x)
    → (first_of r).1 ≡ ok x
first_of_unique (s, a) [] x e m u = elim m [ ]
first_of_unique (s, a) (y ∷ ys) x e m u =
    ap (λ b. (first_of (s, b)).1) e ∙ first_of_cons s y ys ∙ ap ok (u y (inl refl))

pub find_first_state :
    {S R : Type 0} (t : Table S R) (p : R → Bool) (s : S) → (find_first t p s).0 ≡ (t.find p s).0
unfolding find_first
find_first_state t p s = first_of_state (t.find p s)

pub find_first_listed :
    {S R : Type 0} (t : Table S R) (p : R → Bool) (s : S) (x : R)
    → (find_first t p s).1 ≡ ok x
    → (l : List R) × ((t.find p s).1 ≡ ok l) × In x l
unfolding find_first
find_first_listed t p s x h =
    let (rest, e) = first_of_ok (t.find p s) x h in (x ∷ rest, e, inl refl)

module _ {S R : Type 0} (key : R → Text) (t : Table S R) (law : Lawful key t) where
  pub find_first_keeps : (p : R → Bool) (s : S) → t.rows (find_first t p s).0 ≡ t.rows s
  unfolding find_first
  find_first_keeps p s = ap t.rows (first_of_state (t.find p s)) ∙ law.find_keeps p s

  -- The row read is a row of the table for which the condition holds.
  pub find_first_ok :
      (p : R → Bool) (s : S) (x : R) → (find_first t p s).1 ≡ ok x → In x (t.rows s) × (p x ≡ true)
  unfolding find_first
  find_first_ok p s x h =
      let (rest, e) = first_of_ok (t.find p s) x h in
      (In-select p (t.rows s) x).0 (subst (λ l. In x l) (law.find_ok p s (x ∷ rest) e) (inl refl))

  -- Where the condition fixes the key of the rows, the one row of it is read, unless the statement fails.
  pub find_first_unique :
      (column : R → Text) (p : R → Bool) (s : S) (l : List R) (x : R)
      → ((a b : R) → p a ≡ true → p b ≡ true → column a ≡ column b)
      → Distinct column (t.rows s)
      → (t.find p s).1 ≡ ok l
      → In x (t.rows s)
      → p x ≡ true
      → (find_first t p s).1 ≡ ok x
  unfolding find_first
  find_first_unique column p s l x same d e m q =
      first_of_unique (t.find p s) l x e
        (subst (λ k. In x k) (sym (law.find_ok p s l e)) ((In-select p (t.rows s) x).1 (m, q)))
        (λ y n.
          let (i, u) = (In-select p (t.rows s) y).0 (subst (λ k. In y k) (law.find_ok p s l e) n) in
          Distinct-In column (t.rows s) y x d i m (same y x u q))

  -- Where one row alone satisfies the condition, it is read, unless the statement fails.
  pub find_first_only :
      (p : R → Bool) (s : S) (l : List R) (x : R)
      → ((y : R) → In y (t.rows s) → p y ≡ true → y ≡ x)
      → (t.find p s).1 ≡ ok l
      → In x (t.rows s)
      → p x ≡ true
      → (find_first t p s).1 ≡ ok x
  unfolding find_first
  find_first_only p s l x only e m q =
      first_of_unique (t.find p s) l x e
        (subst (λ k. In x k) (sym (law.find_ok p s l e)) ((In-select p (t.rows s) x).1 (m, q)))
        (λ y n.
          let (i, u) = (In-select p (t.rows s) y).0 (subst (λ k. In y k) (law.find_ok p s l e) n) in
          only y i u)
