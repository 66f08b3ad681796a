-- ===== src/Server/Toggles/Creation.antt =====
-- CreateToggle makes every toggle above the one that is asked for, and stores what it makes enabled.
use to_toggle.Prelude.{
  ℕ, ◌+◌, ◌≡◌, ◌⊎◌, refl, sym, ap, ◌∙◌, subst, inl, inr, Bool, true, false, not, Option, none, some,
  List, [], ◌∷◌, ◌++◌, Text, text_eq, text_eq_iff, is_nil, join, In, All, arith, &&_iff,
  if◌then◌else◌,
}
use to_toggle.Server.Db.{
  database, not_found, Answer, ok, and_then, and_then_ok, and_then_cases, Table, Lawful, find_first,
  rename_error, rename_error_ok, if_found-cases,
}
use to_toggle.Server.Db.Rows.{In-++}
use to_toggle.Server.Db.Reads.{find_first_ok, find_first_keeps, find_first_state}
use to_toggle.Server.Approval.Workflow.{Named}
use to_toggle.Server.Toggles.{
  Toggle, new_toggle, with_defaults, parse_toggle_path, has_path, get_by_path, exists,
  create_toggle_hierarchy, create_unless, create_in_application, create_toggle,
}

-- A toggle of the application stands at the path.
abbrev pub StandsAt : Text → List Toggle → Text → Type 0
StandsAt app_id rows path = (x : Toggle) × In x rows × (x.path ≡ path) × (x.app_id ≡ app_id)

-- The paths of the levels, from the parts before them on.
abbrev pub level_paths : List Text → List Text → List Text
level_paths before [] = []
level_paths before (part ∷ rest) =
    join 46 (before ++ (part ∷ [])) ∷ level_paths (before ++ (part ∷ [])) rest

-- Nothing is lost.
abbrev pub Grows : List Toggle → List Toggle → Type 0
Grows xs ys = (x : Toggle) → In x xs → In x ys

-- What is new is enabled.
abbrev pub AddsEnabled : List Toggle → List Toggle → Type 0
AddsEnabled xs ys = (x : Toggle) → In x ys → In x xs ⊎ (x.enabled ≡ true)

AddsEnabled-end :
    (xs : List Toggle) (y : Toggle) → y.enabled ≡ true → AddsEnabled xs (xs ++ (y ∷ []))
AddsEnabled-end xs y e x m = elim (In-++ xs (y ∷ []) x m) [
  | inl i ↦ inl i
  | inr i ↦ elim i [ inl q ↦ inr (ap (λ z. z.enabled) q ∙ e) | inr j ↦ elim j [ ] ]
]

pub In-before : (xs : List Toggle) (y x : Toggle) → In x xs → In x (xs ++ (y ∷ []))
In-before [] y x m = elim m [ ]
In-before (z ∷ zs) y x (inl e) = inl e
In-before (z ∷ zs) y x (inr m) = inr (In-before zs y x m)

pub In-end : (xs : List Toggle) (y : Toggle) → In y (xs ++ (y ∷ []))
In-end [] y = inl refl
In-end (z ∷ zs) y = inr (In-end zs y)

abbrev Made : Text → List Toggle → List Text → List Toggle → Type 0
Made app_id before paths after =
    All (StandsAt app_id after) paths × Grows before after × AddsEnabled before after

Made-level :
    (app_id path : Text) (rest : List Text) (before mid after : List Toggle)
    → Grows before mid
    → AddsEnabled before mid
    → StandsAt app_id mid path
    → Made app_id mid rest after
    → Made app_id before (path ∷ rest) after
Made-level app_id path rest before mid after g w (x, m, p, a) (all, k, on) = (
  ((x, k x m, p, a), all),
  (λ y i. k y (g y i)),
  (λ y i. elim (on y i) [ inl j ↦ w y j | inr e ↦ inr e ]),
)

module _ {S : Type 0} (t : Table S Toggle) (law : Lawful (λ x. x.id) t) where
  create_toggle_hierarchy-StandsAt :
      (ulids : ℕ → Text) (enabled : Bool) (app_id : Text) (before parts : List Text)
      (parent_id : Option Text) (level : ℕ) (s : S)
      → let x = create_toggle_hierarchy t ulids enabled app_id before parts parent_id level s in
        x.1 ≡ ok tt → Made app_id (t.rows s) (level_paths before parts) (t.rows x.0)
  unfolding create_toggle_hierarchy get_by_path
  create_toggle_hierarchy-StandsAt ulids enabled app_id before [] parent_id level s h =
      (tt, (λ x m. m), (λ x m. inl m))
  create_toggle_hierarchy-StandsAt ulids enabled app_id before (part ∷ rest) parent_id level s h =
      let here = before ++ (part ∷ []) in
      let path = join 46 here in
      let toggle = with_defaults (
        new_toggle (ulids level) part (if is_nil rest then enabled else true) path level parent_id
          app_id) in
      let got = get_by_path t path app_id s in
      let kept = find_first_keeps (λ x. x.id) t law (has_path path app_id) s in
      let f : Toggle → S → S × Answer Unit = (λ existing s1.
        create_toggle_hierarchy t ulids enabled app_id here rest (some existing.id) (level + 1)
          s1) in
      let k : Unit → S → S × Answer Unit = (λ u s2.
        create_toggle_hierarchy t ulids enabled app_id here rest (some toggle.id) (level + 1) s2) in
      let g : S → S × Answer Unit =
        (λ s1. and_then (rename_error database (t.insert toggle s1)) k) in
      elim (if_found-cases got f g) [
        | inl (x, e, q) ↦
            let (m, c) = find_first_ok (λ y. y.id) t law (has_path path app_id) s x e in
            let (a, b) = (&&_iff (text_eq x.path path) (text_eq x.app_id app_id)).0 c in
            let stands : StandsAt app_id (t.rows s) path =
              (x, m, (text_eq_iff x.path path).0 a, (text_eq_iff x.app_id app_id).0 b) in
            subst (λ z. Made app_id (t.rows s) (path ∷ level_paths here rest) (t.rows z.0)) (sym q)
              (Made-level app_id path (level_paths here rest) (t.rows s) (t.rows got.0)
                (t.rows (f x got.0).0) (λ y i. subst (In y) (sym kept) i)
                (λ y i. inl (subst (In y) kept i))
                (subst (λ l. StandsAt app_id l path) (sym kept) stands)
                (create_toggle_hierarchy-StandsAt ulids enabled app_id here rest (some x.id)
                  (level + 1) got.0 (ap (λ z. z.1) (sym q) ∙ h)))
        | inr q ↦
            let put = rename_error database (t.insert toggle got.0) in
            let (u, e, r, h') = and_then_ok put k tt (ap (λ z. z.1) (sym q) ∙ h) in
            let (done, same) = rename_error_ok database (t.insert toggle got.0) u e in
            let rows =
              ap t.rows same
              ∙ ((law.insert_ok toggle got.0 done).0 ∙ ap (λ l. l ++ (toggle ∷ [])) kept) in
            subst (λ z. Made app_id (t.rows s) (path ∷ level_paths here rest) (t.rows z.0))
              (sym (q ∙ r))
              (Made-level app_id path (level_paths here rest) (t.rows s) (t.rows put.0)
                (t.rows (k u put.0).0)
                (λ y i. subst (In y) (sym rows) (In-before (t.rows s) toggle y i))
                (subst (AddsEnabled (t.rows s)) (sym rows) (AddsEnabled-end (t.rows s) toggle refl))
                (subst (λ l. StandsAt app_id l path) (sym rows)
                  (toggle, In-end (t.rows s) toggle, refl, refl))
                (create_toggle_hierarchy-StandsAt ulids enabled app_id here rest (some toggle.id)
                  (level + 1) put.0 h'))
      ]

  pub exists_keeps : (path app_id : Text) (s : S) → t.rows (exists t path app_id s).0 ≡ t.rows s
  unfolding exists
  exists_keeps path app_id s =
      let found = t.find (has_path path app_id) s in
      let kept = law.find_keeps (has_path path app_id) s in
      elim (and_then_cases found (λ l s'. (s', ok (not (is_nil l))))) [
        | inl (l, e, q) ↦ ap (λ z. t.rows z.0) q ∙ kept
        | inr (e, h, q) ↦ ap (λ z. t.rows z.0) q ∙ kept
      ]

  create_unless-hierarchy :
      (ulids : ℕ → Text) (path : Text) (enabled : Bool) (app_id : Text) (there : Bool) (s : S)
      → (create_unless t ulids path enabled app_id there s).1 ≡ ok tt
      → create_unless t ulids path enabled app_id there s
        ≡ create_toggle_hierarchy t ulids enabled app_id [] (parse_toggle_path path) none 0 s
  unfolding create_unless
  create_unless-hierarchy ulids path enabled app_id true s h = cc
  create_unless-hierarchy ulids path enabled app_id false s h = refl

  create_toggle-in_application :
      (applications : Table S Named) (ulids : ℕ → Text) (path : Text) (enabled : Bool)
      (app_id : Text) (s : S)
      → (create_toggle t applications ulids path enabled app_id s).1 ≡ ok tt
      → create_toggle t applications ulids path enabled app_id s
        ≡ create_in_application t applications ulids path enabled app_id s
  unfolding create_toggle
  create_toggle-in_application applications ulids path enabled app_id s h = ground (arith, h)

  -- When CreateToggle succeeds, a toggle of the application stands at the path that is asked for
  -- and at each path that ends before one of its dots, no toggle that was there is lost, and every
  -- toggle that is new is enabled, whatever was asked for. The table of toggles is lawful, and
  -- reading the applications leaves the toggles.
  pub create_toggle-StandsAt :
      (applications : Table S Named) (ulids : ℕ → Text) (path : Text) (enabled : Bool)
      (app_id : Text) (s : S)
      → ((p : Named → Bool) (s' : S) → t.rows (applications.find p s').0 ≡ t.rows s')
      → (create_toggle t applications ulids path enabled app_id s).1 ≡ ok tt
      → let rows' = t.rows (create_toggle t applications ulids path enabled app_id s).0 in
        All (StandsAt app_id rows') (level_paths [] (parse_toggle_path path))
        × Grows (t.rows s) rows'
        × AddsEnabled (t.rows s) rows'
  unfolding create_in_application
  create_toggle-StandsAt applications ulids path enabled app_id s apart h =
      let p : Named → Bool = (λ a. text_eq a.id app_id) in
      let app = rename_error not_found (find_first applications p s) in
      let there : S → S × Answer Bool = (λ s1. rename_error database (exists t path app_id s1)) in
      let e0 = create_toggle-in_application applications ulids path enabled app_id s h in
      let (a, x1, q1, h1) =
        and_then_ok app
          (λ a s1. and_then (there s1) (λ b s2. create_unless t ulids path enabled app_id b s2)) tt
          (ap (λ z. z.1) (sym e0) ∙ h) in
      let (b, x2, q2, h2) =
        and_then_ok (there app.0) (λ b s2. create_unless t ulids path enabled app_id b s2) tt h1 in
      let q3 = create_unless-hierarchy ulids path enabled app_id b (there app.0).0 h2 in
      let kept =
        ap t.rows (rename_error_ok database (exists t path app_id app.0) b x2).1
        ∙ (exists_keeps path app_id app.0
            ∙ (ap t.rows (
                  (rename_error_ok not_found (find_first applications p s) a x1).1
                  ∙ find_first_state applications p s)
                ∙ apart p s)) in
      subst (λ z. Made app_id (t.rows s) (level_paths [] (parse_toggle_path path)) (t.rows z.0))
        (sym (e0 ∙ (q1 ∙ (q2 ∙ q3))))
        (subst
          (λ l. Made app_id l (level_paths [] (parse_toggle_path path)) (
            t.rows
              (create_toggle_hierarchy t ulids enabled app_id [] (parse_toggle_path path) none 0
                (there app.0).0).0))
          kept
          (create_toggle_hierarchy-StandsAt ulids enabled app_id [] (parse_toggle_path path) none 0
            (there app.0).0 (ap (λ z. z.1) (sym q3) ∙ h2)))
