-- ===== src/Sdk/Client/Cascade.antt =====
-- When a toggle is active, said without the code's loops: by the texts before the dots of its path.
use to_toggle.Prelude.{
  ◌≡◌, refl, sym, ◌∙◌, ap, ◌↔◌, inl, inr, Bool, true, false, some, List, [], ◌∷◌, ◌++◌, Text, In,
  Option-cases, arith,
}
use to_toggle.Sdk.Path.{dot, FlagPath, valid, new_path, ancestor_paths}
use to_toggle.Sdk.Path.Ancestors.{ancestor_paths-In, ancestor_paths_prefix}
use to_toggle.Sdk.Path.Validity.{new_path-valid}
use to_toggle.Sdk.Catalog.{Flag, Index, Catalog, lookup, by_path, present, ancestors_of}
use to_toggle.Sdk.Client.Evaluate.{
  Reading, Outcome, returns, panicked, evaluate_rule, evaluate_ancestors, evaluate_target,
  is_active,
}

-- Every toggle configured at a text before one of the dots of `path` is enabled.
pub record IsCascadeOn (a : Catalog) (path : Text) : Type 0 where
  pub above_enabled :
      (q r : Text) (t : Flag)
      → path ≡ q ++ (dot ∷ r)
      → by_path a (record { value = q }) ≡ some t
      → t.enabled ≡ true

present_enabled :
    (m : Index) (ps : List FlagPath)
    → evaluate_ancestors (present m ps) ≡ true
    → (q : FlagPath) (t : Flag) → In q ps
    → lookup q.value m ≡ some t
    → t.enabled ≡ true
unfolding present evaluate_ancestors
present_enabled m [] h q t i e = elim i [ ]
present_enabled m (p ∷ ps) h q t (inl same) e =
    let e' : lookup p.value m ≡ some t = rw same at e in ground (arith, e')
present_enabled m (p ∷ ps) h q t (inr i) e =
    ground (arith, present_enabled m ps (ground arith) q t i e)

present_all_enabled :
    (m : Index) (ps : List FlagPath)
    → ((q : FlagPath) (t : Flag) → In q ps → lookup q.value m ≡ some t → t.enabled ≡ true)
    → evaluate_ancestors (present m ps) ≡ true
unfolding present evaluate_ancestors
present_all_enabled m [] f = refl
present_all_enabled m (p ∷ ps) f =
    let ih = present_all_enabled m ps (λ q t i. f q t (inr i)) in
    elim (Option-cases (lookup p.value m)) [
      | inl absent ↦ rw absent ih
      | inr (t, e) ↦ rw (e, f p t (inl refl) e) ih
    ]

-- The ancestors of a path are all enabled exactly when the cascade is on.
pub evaluate_ancestors_iff :
    (a : Catalog) (p : FlagPath)
    → (evaluate_ancestors (ancestors_of a p) ≡ true) ↔ IsCascadeOn a p.value
unfolding ancestors_of by_path
evaluate_ancestors_iff a p = (
  (λ h. record {
    above_enabled = λ q r t e found.
        present_enabled a.by_path (ancestor_paths p) h (record { value = q }) t
          (ancestor_paths-In p q r e) found;
  }),
  (λ on. present_all_enabled a.by_path (ancestor_paths p) (λ q t i found.
      let (r, e) = ancestor_paths_prefix p q i in on.above_enabled q.value r t e found)),
)

-- A toggle is on for a client: the client runs, the path is well formed and names a fetched toggle
-- that is enabled, its rule matches, and every toggle above it is enabled.
pub record IsOn (c : Reading) (path : Text) : Type 0 where
  pub running : c.started ≡ true
  pub not_shut_down : c.shutdown ≡ false
  pub well_formed : new_path path ≡ valid (record { value = path })
  pub target : Flag
  pub target_found : by_path c.cache.app (record { value = path }) ≡ some target
  pub target_enabled : target.enabled ≡ true
  pub rule_holds : evaluate_rule c target ≡ returns true
  pub cascade : IsCascadeOn c.cache.app path

abbrev plain : Outcome Bool → Bool
plain (returns b) = b
plain panicked = false

is_active_found :
    (c : Reading) (path : Text) (p : FlagPath) (t : Flag)
    → c.started ≡ true
    → c.shutdown ≡ false
    → new_path path ≡ valid p
    → by_path c.cache.app p ≡ some t
    → (is_active c path).0 ≡ plain (evaluate_target c (t, ancestors_of c.cache.app p))
unfolding is_active
is_active_found c path p t s d w f = ground arith

plain-evaluate_target :
    (c : Reading) (t : Flag) (l : List Flag)
    → (plain (evaluate_target c (t, l)) ≡ true)
      ↔ ((evaluate_ancestors l ≡ true) × (t.enabled ≡ true) × (evaluate_rule c t ≡ returns true))
unfolding evaluate_target
plain-evaluate_target c t l = ground arith

-- What the client answers with true: it runs, and the path names a fetched toggle.
is_active_needs :
    (c : Reading) (path : Text)
    → (is_active c path).0 ≡ true
    → (c.started ≡ true)
      × (c.shutdown ≡ false)
      × ((p : FlagPath) × (t : Flag) × (new_path path ≡ valid p) × (by_path c.cache.app p ≡ some t))
unfolding is_active
is_active_needs c path h = ground arith

-- A toggle is active for a client exactly when it is on.
pub is_active_iff : (c : Reading) (path : Text) → ((is_active c path).0 ≡ true) ↔ IsOn c path
is_active_iff c path = (only_if, if_on)
  where
    only_if : (is_active c path).0 ≡ true → IsOn c path
    only_if h =
        let (s, d, hit) = is_active_needs c path h in
        let (p, t, w, f) = hit in
        let same : p ≡ record { value = path } =
          ap (λ v. record { value = v }) (new_path-valid path p w).0 in
        let parts =
          (plain-evaluate_target c t (ancestors_of c.cache.app p)).0
            (sym (is_active_found c path p t s d w f) ∙ h) in
        record {
          running = s;
          not_shut_down = d;
          well_formed = rw same at w;
          target = t;
          target_found = rw same at f;
          target_enabled = parts.1;
          rule_holds = parts.2;
          cascade = rw same at ((evaluate_ancestors_iff c.cache.app p).0 parts.0);
        }

    if_on : IsOn c path → (is_active c path).0 ≡ true
    if_on o =
        is_active_found c path (record { value = path }) o.target o.running o.not_shut_down
          o.well_formed o.target_found
        ∙ (plain-evaluate_target c o.target (ancestors_of c.cache.app (record { value = path }))).1
            (
              (evaluate_ancestors_iff c.cache.app (record { value = path })).1 o.cascade,
              o.target_enabled,
              o.rule_holds,
            )
