-- ===== src/Server/Toggles/Placing.antt =====
-- CreateToggle of server/internal/app/usecase/toggle_usecase.go keeps every toggle one level below
-- the one that it points to, whether it succeeds or fails on the way.
use to_toggle.Prelude.{
  ℕ, ◌+◌, ◌≡◌, ◌≢◌, refl, sym, ap, ◌∙◌, subst, inl, inr, Bool, true, false, Option, none, some,
  List, [], ◌∷◌, ◌++◌, Text, text_eq, text_eq_iff, is_empty, is_nil, join, split, split-join,
  split-contains_char, contains_char, In, All, All-In, length, &&_iff, arith, Bool-cases,
  if◌then◌else◌,
}
use to_toggle.Server.Db.{
  Fault, database, not_found, Answer, err, and_then, and_then_cases, rename_error, rename_error_ok,
  rename_error-err, rename_error_state, if_found-cases, Table, Lawful, Fresh, Distinct, find_first,
}
use to_toggle.Server.Db.Rows.{All-++, All-map, ++_assoc}
use to_toggle.Server.Db.Reads.{find_first_ok, find_first_keeps, find_first_state}
use to_toggle.Server.Approval.Workflow.{Named}
use to_toggle.Server.Toggles.{
  Toggle, new_toggle, with_defaults, parse_toggle_path, has_path, get_by_path, exists,
  create_toggle_hierarchy, create_unless, create_in_application, create_toggle,
}
use to_toggle.Server.Toggles.Creation.{In-before, In-end, exists_keeps}
use to_toggle.Server.Toggles.Levels.{HasParent, Placed, Levelled}

Distinct-append :
    (xs : List Toggle) (x : Toggle)
    → Distinct (λ y. y.id) xs
    → Fresh (λ y. y.id) x.id xs
    → Distinct (λ y. y.id) (xs ++ (x ∷ []))
Distinct-append [] x d f = (tt, tt)
Distinct-append (y ∷ ys) x (g, d) (n, f) =
    (All-++ (λ z. z.id ≢ y.id) ys (x ∷ []) g ((λ e. n (sym e)), tt), Distinct-append ys x d f)

HasParent-append :
    (xs : List Toggle) (x : Toggle) (o : Option Text) (level : ℕ)
    → HasParent xs o level
    → HasParent (xs ++ (x ∷ [])) o level
HasParent-append xs x none level h = tt
HasParent-append xs x (some i) level (p, m, e, l) = (p, In-before xs x p m, e, l)

-- A new toggle at its level, under a toggle of the rows.
Levelled-append :
    (xs : List Toggle) (x : Toggle)
    → Levelled xs
    → Fresh (λ y. y.id) x.id xs
    → x.level + 1 ≡ length (split 46 x.path)
    → HasParent xs x.parent_id x.level
    → Levelled (xs ++ (x ∷ []))
Levelled-append xs x (d, h) f l p = (
  Distinct-append xs x d f,
  All-++ (Placed (xs ++ (x ∷ []))) xs (x ∷ [])
      (All-map (Placed xs) (Placed (xs ++ (x ∷ [])))
        (λ y (m, q). (m, HasParent-append xs x y.parent_id y.level q)) xs h)
      ((l, HasParent-append xs x x.parent_id x.level p), tt),
)

length-append : (xs : List Text) (w : Text) → length (xs ++ (w ∷ [])) ≡ length xs + 1
length-append [] w = refl
length-append (x ∷ xs) w = ground (arith, length-append xs w)

All-first : (P : Text → Type 0) (xs ys : List Text) → All P (xs ++ ys) → All P xs
All-first P [] ys h = tt
All-first P (x ∷ xs) ys (p, h) = (p, All-first P xs ys h)

split-here :
    (before : List Text) (part : Text)
    → All (λ v. contains_char 46 v ≡ false) (before ++ (part ∷ []))
    → split 46 (join 46 (before ++ (part ∷ []))) ≡ before ++ (part ∷ [])
split-here [] part h = split-join 46 part [] h
split-here (w ∷ ws) part h = split-join 46 w (ws ++ (part ∷ [])) h

module _ {S : Type 0} (t : Table S Toggle) (law : Lawful (λ x. x.id) t) where
  rename_insert-err :
      (x : Toggle) (s : S) (e : Fault)
      → (rename_error database (t.insert x s)).1 ≡ err e
      → t.rows (rename_error database (t.insert x s)).0 ≡ t.rows s
  rename_insert-err x s e h =
      let (f, g, same) = rename_error-err database (t.insert x s) e h in
      ap t.rows same ∙ law.insert_err x s f g

  create_toggle_hierarchy-Levelled :
      (ulids : ℕ → Text) (enabled : Bool) (app_id : Text) (before parts : List Text)
      (parent_id : Option Text) (level : ℕ) (s : S)
      → All (λ v. contains_char 46 v ≡ false) (before ++ parts)
      → length before ≡ level
      → HasParent (t.rows s) parent_id level
      → Levelled (t.rows s)
      → Levelled
          (t.rows (create_toggle_hierarchy t ulids enabled app_id before parts parent_id level s).0)
  unfolding create_toggle_hierarchy get_by_path
  create_toggle_hierarchy-Levelled ulids enabled app_id before [] parent_id level s dots n p h = h
  create_toggle_hierarchy-Levelled ulids enabled app_id before (part ∷ rest) parent_id level s dots
        n p h =
      let here = before ++ (part ∷ []) in
      let path = join 46 here in
      let toggle = with_defaults (
        new_toggle (ulids level) part (if is_nil rest then enabled else true) path level parent_id
          app_id) in
      let got = get_by_path t path app_id s in
      let kept = find_first_keeps (λ x. x.id) t law (has_path path app_id) s in
      let dots_here : All (λ v. contains_char 46 v ≡ false) (here ++ rest) =
        subst (All (λ v. contains_char 46 v ≡ false)) (sym (++_assoc before (part ∷ []) rest))
          dots in
      let shape =
        split-here before part (All-first (λ v. contains_char 46 v ≡ false) here rest dots_here) in
      let size : length here ≡ level + 1 = (length-append before part ∙ ap (λ z. z + 1) n) in
      let f : Toggle → S → S × Answer Unit = (λ existing s1.
        create_toggle_hierarchy t ulids enabled app_id here rest (some existing.id) (level + 1)
          s1) in
      let k : Unit → S → S × Answer Unit = (λ u s2.
        create_toggle_hierarchy t ulids enabled app_id here rest (some toggle.id) (level + 1) s2) in
      let g : S → S × Answer Unit =
        (λ s1. and_then (rename_error database (t.insert toggle s1)) k) in
      elim (if_found-cases got f g) [
        | inl (x, e, q) ↦
            let (m, c) = find_first_ok (λ y. y.id) t law (has_path path app_id) s x e in
            let at_path =
              (text_eq_iff x.path path).0
                ((&&_iff (text_eq x.path path) (text_eq x.app_id app_id)).0 c).0 in
            let own = (All-In (Placed (t.rows s)) x (t.rows s) h.1 m).0 in
            let same_level : x.level + 1 ≡ level + 1 =
              (own ∙ (ap (λ z. length (split 46 z)) at_path ∙ (ap length shape ∙ size))) in
            subst (λ z. Levelled (t.rows z.0)) (sym q)
              (create_toggle_hierarchy-Levelled ulids enabled app_id here rest (some x.id)
                (level + 1) got.0 dots_here size (x, subst (In x) (sym kept) m, refl, same_level)
                (subst Levelled (sym kept) h))
        | inr q ↦
            let put = rename_error database (t.insert toggle got.0) in
            elim (and_then_cases put k) [
              | inl (u, e, r) ↦
                  let (done, same) = rename_error_ok database (t.insert toggle got.0) u e in
                  let (added, fresh) = law.insert_ok toggle got.0 done in
                  let rows : t.rows put.0 ≡ t.rows s ++ (toggle ∷ []) =
                    (ap t.rows same ∙ (added ∙ ap (λ l. l ++ (toggle ∷ [])) kept)) in
                  let next =
                    Levelled-append (t.rows s) toggle h
                      (subst (Fresh (λ y. y.id) toggle.id) kept fresh)
                      (sym (ap length shape ∙ size)) p in
                  subst (λ z. Levelled (t.rows z.0)) (sym (q ∙ r))
                    (create_toggle_hierarchy-Levelled ulids enabled app_id here rest
                      (some toggle.id) (level + 1) put.0 dots_here size
                      (toggle, subst (In toggle) (sym rows) (In-end (t.rows s) toggle), refl, refl)
                      (subst Levelled (sym rows) next))
              | inr (e, r, w) ↦
                  subst (λ z. Levelled (t.rows z.0)) (sym (q ∙ w))
                    (subst Levelled (sym (rename_insert-err toggle got.0 e r ∙ kept)) h)
            ]
      ]

  create_unless-Levelled :
      (ulids : ℕ → Text) (path : Text) (enabled : Bool) (app_id : Text) (there : Bool) (s : S)
      → Levelled (t.rows s)
      → Levelled (t.rows (create_unless t ulids path enabled app_id there s).0)
  unfolding create_unless
  create_unless-Levelled ulids path enabled app_id true s h = h
  create_unless-Levelled ulids path enabled app_id false s h =
      create_toggle_hierarchy-Levelled ulids enabled app_id [] (parse_toggle_path path) none 0 s
        (split-contains_char 46 path) refl tt h

  create_in_application-Levelled :
      (applications : Table S Named) (ulids : ℕ → Text) (path : Text) (enabled : Bool)
      (app_id : Text) (s : S)
      → ((p : Named → Bool) (s' : S) → t.rows (applications.find p s').0 ≡ t.rows s')
      → Levelled (t.rows s)
      → Levelled (t.rows (create_in_application t applications ulids path enabled app_id s).0)
  unfolding create_in_application
  create_in_application-Levelled applications ulids path enabled app_id s apart h =
      let p : Named → Bool = (λ a. text_eq a.id app_id) in
      let app = rename_error not_found (find_first applications p s) in
      let there = rename_error database (exists t path app_id app.0) in
      let make : Bool → S → S × Answer Unit =
        (λ b s2. create_unless t ulids path enabled app_id b s2) in
      let look : Named → S → S × Answer Unit =
        (λ a s1. and_then (rename_error database (exists t path app_id s1)) make) in
      let kept : t.rows app.0 ≡ t.rows s =
        (ap t.rows (
            rename_error_state not_found (find_first applications p s)
            ∙ find_first_state applications p s)
          ∙ apart p s) in
      let kept' : t.rows there.0 ≡ t.rows s =
        (ap t.rows (rename_error_state database (exists t path app_id app.0))
          ∙ (exists_keeps t law path app_id app.0 ∙ kept)) in
      elim (and_then_cases app look) [
        | inr (e, r, w) ↦ subst (λ z. Levelled (t.rows z.0)) (sym w) (subst Levelled (sym kept) h)
        | inl (a, e, q) ↦ elim (and_then_cases there make) [
          | inr (f, r, w) ↦
              subst (λ z. Levelled (t.rows z.0)) (sym (q ∙ w)) (subst Levelled (sym kept') h)
          | inl (b, f, w) ↦
              subst (λ z. Levelled (t.rows z.0)) (sym (q ∙ w))
                (create_unless-Levelled ulids path enabled app_id b there.0
                  (subst Levelled (sym kept') h))
        ]
      ]

  -- Whether it succeeds or fails on the way, CreateToggle keeps the ids distinct, every toggle's
  -- level that of its path, and every toggle one level below the one that it points to. The table of
  -- toggles is lawful, and reading the applications leaves the toggles.
  pub create_toggle-Levelled :
      (applications : Table S Named) (ulids : ℕ → Text) (path : Text) (enabled : Bool)
      (app_id : Text) (s : S)
      → ((p : Named → Bool) (s' : S) → t.rows (applications.find p s').0 ≡ t.rows s')
      → Levelled (t.rows s)
      → Levelled (t.rows (create_toggle t applications ulids path enabled app_id s).0)
  unfolding create_toggle
  create_toggle-Levelled applications ulids path enabled app_id s apart h =
      elim (Bool-cases (is_empty path)) [
        | inl e ↦ rw e h
        | inr e ↦ elim (Bool-cases (is_empty app_id)) [
          | inl f ↦ rw (e, f) h
          | inr f ↦
              rw (e, f)
                (create_in_application-Levelled applications ulids path enabled app_id s apart h)
        ]
      ]
