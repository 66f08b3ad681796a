-- ===== src/Server/Toggles/StoredRules.antt =====
-- Which activation rules UpdateToggleWithRule of server/internal/app/usecase/toggle_usecase.go lets
-- into the table.
use mathlib.Core.Option.{some-injective}
use to_toggle.Prelude.{
  ◌≡◌, ◌≢◌, refl, sym, ap, ◌∙◌, subst, inl, inr, Bool, true, false, ◌||◌, Option, none, some, Text,
  text_eq, is_empty, All, arith, Bool-cases,
}
use to_toggle.Sdk.Strategy.Percentage.{Floats}
use to_toggle.Server.Db.{
  Fault, database, not_found, Answer, ok, err, and_then_cases, rename_error, rename_error_ok,
  rename_error-err, rename_error_state, Table, Lawful,
}
use to_toggle.Server.Db.Keep.{All-put_row}
use to_toggle.Server.Db.Reads.{find_first_keeps}
use to_toggle.Server.Rules.{Json, validate_rule}
use to_toggle.Server.Rules.Ephemeral.{Unicode}
use to_toggle.Server.Toggles.{Toggle, ActivationRule}
use to_toggle.Server.Toggles.Status.{get_by_id, own, get_toggle_by_id}
use to_toggle.Server.Toggles.Changes.{
  checked_rule, set_activation_rule, with_rule, save_with_rule, change_rule, rule_context_warning,
  update_toggle_with_rule,
}

err-not_ok : {A : Type 0} (f : Fault) (a : A) → err f ≢ ok a
err-not_ok f a h = cc

ok-inj : {A : Type 0} {a b : A} → ok a ≡ ok b → a ≡ b
ok-inj h = cc

module _ (floats : Floats) (json : Json) where
  -- The rule of a toggle, if it has one, passes ValidateRule.
  abbrev pub RuleChecked : Toggle → Type 0
  RuleChecked x =
      (r : ActivationRule) → x.activation_rule ≡ some r → validate_rule floats json r ≡ ok tt

  checked_rule-RuleChecked :
      (a : Answer Unit) (r : ActivationRule) (x y : Toggle)
      → validate_rule floats json r ≡ a
      → checked_rule a r x ≡ ok y
      → RuleChecked y
  unfolding checked_rule
  checked_rule-RuleChecked (err f) r x y v h r' e = elim (err-not_ok f y h) [ ]
  checked_rule-RuleChecked (ok u) r x y v h r' e =
      let same : some r ≡ y.activation_rule = ap (λ z. z.activation_rule) (ok-inj h) in
      let one : r ≡ r' = some-injective r r' (same ∙ e) in
      ap (validate_rule floats json) (sym one) ∙ v

  clear-RuleChecked : (x y : Toggle) → x.activation_rule ≡ none → ok x ≡ ok y → RuleChecked y
  clear-RuleChecked x y n h r e =
      let same : x.activation_rule ≡ y.activation_rule = ap (λ z. z.activation_rule) (ok-inj h) in
      cc

  with_rule-RuleChecked :
      (enabled has_rule : Bool) (rule : Option ActivationRule) (x y : Toggle)
      → with_rule floats json enabled has_rule rule x ≡ ok y
      → RuleChecked y
  unfolding with_rule set_activation_rule
  with_rule-RuleChecked enabled has_rule none x y h = clear-RuleChecked _ y refl h
  with_rule-RuleChecked enabled true (some r) x y h =
      checked_rule-RuleChecked (validate_rule floats json r) r _ y refl h
  with_rule-RuleChecked enabled false (some r) x y h = clear-RuleChecked _ y refl h

  module _ {S : Type 0} (t : Table S Toggle) (law : Lawful (λ x. x.id) t) where
    get_toggle_by_id_keeps :
        (i app_id : Text) (s : S) → t.rows (get_toggle_by_id t i app_id s).0 ≡ t.rows s
    unfolding get_toggle_by_id
    get_toggle_by_id_keeps i app_id s = elim (Bool-cases (is_empty i || is_empty app_id)) [
      | inl e ↦ rw e refl
      | inr e ↦
          let found = rename_error not_found (get_by_id t i s) in
          let kept : t.rows found.0 ≡ t.rows s =
            (ap t.rows (rename_error_state not_found (get_by_id t i s))
              ∙ find_first_keeps (λ y. y.id) t law (λ y. text_eq y.id i) s) in
          rw e (elim (and_then_cases found (own t app_id)) [
            | inl (x, f, q) ↦ ap (λ z. t.rows z.0) q ∙ (own_keeps app_id x found.0 ∙ kept)
            | inr (f, g, q) ↦ ap (λ z. t.rows z.0) q ∙ kept
          ])
    ]
      where
        own_keeps : (app_id : Text) (x : Toggle) (s : S) → t.rows (own t app_id x s).0 ≡ t.rows s
        own_keeps app_id x s = ground arith

    save_with_rule-RuleChecked :
        (u : Unicode) (has_rule : Bool) (rule : Option ActivationRule) (x : Toggle) (s : S)
        → RuleChecked x
        → All RuleChecked (t.rows s)
        → All RuleChecked (t.rows (save_with_rule t floats json u has_rule rule x s).0)
    unfolding save_with_rule
    save_with_rule-RuleChecked u has_rule rule x s c h =
        let saved = rename_error database (t.save x s) in
        let answer : Unit → S → S × Answer (Toggle × Bool) =
          (λ n s'. (s', ok (x, rule_context_warning floats json u has_rule rule))) in
        elim (and_then_cases saved answer) [
          | inl (n, e, q) ↦
              let (done, same) = rename_error_ok database (t.save x s) n e in
              let rows = ap (λ z. t.rows z.0) q ∙ (ap t.rows same ∙ law.save_ok x s done) in
              subst (All RuleChecked) (sym rows)
                (All-put_row (λ y. y.id) RuleChecked x (t.rows s) c h)
          | inr (e, f, q) ↦
              let (g, failed, same) = rename_error-err database (t.save x s) e f in
              let rows = ap (λ z. t.rows z.0) q ∙ (ap t.rows same ∙ law.save_err x s g failed) in
              subst (All RuleChecked) (sym rows) h
        ]

    change_rule-RuleChecked :
        (u : Unicode) (enabled has_rule : Bool) (rule : Option ActivationRule) (x : Toggle) (s : S)
        → All RuleChecked (t.rows s)
        → All RuleChecked (t.rows (change_rule t floats json u enabled has_rule rule x s).0)
    unfolding change_rule
    change_rule-RuleChecked u enabled has_rule rule x s h =
        let made : S × Answer Toggle = (s, with_rule floats json enabled has_rule rule x) in
        elim (and_then_cases made (save_with_rule t floats json u has_rule rule)) [
          | inl (y, e, q) ↦
              subst (λ z. All RuleChecked (t.rows z.0)) (sym q)
                (save_with_rule-RuleChecked u has_rule rule y s
                  (with_rule-RuleChecked enabled has_rule rule x y e) h)
          | inr (e, f, q) ↦ subst (λ z. All RuleChecked (t.rows z.0)) (sym q) h
        ]

    -- If every stored rule passes ValidateRule, it is so after UpdateToggleWithRule too, on a lawful
    -- table, whether the call succeeds or not.
    pub update_toggle_with_rule-RuleChecked :
        (u : Unicode) (i : Text) (enabled has_rule : Bool) (rule : Option ActivationRule)
        (app_id : Text) (s : S)
        → All RuleChecked (t.rows s)
        → All RuleChecked
            (t.rows (update_toggle_with_rule t floats json u i enabled has_rule rule app_id s).0)
    unfolding update_toggle_with_rule
    update_toggle_with_rule-RuleChecked u i enabled has_rule rule app_id s h =
        let got = get_toggle_by_id t i app_id s in
        let h' = subst (All RuleChecked) (sym (get_toggle_by_id_keeps i app_id s)) h in
        elim (and_then_cases got (change_rule t floats json u enabled has_rule rule)) [
          | inl (x, e, q) ↦
              subst (λ z. All RuleChecked (t.rows z.0)) (sym q)
                (change_rule-RuleChecked u enabled has_rule rule x got.0 h')
          | inr (e, f, q) ↦ subst (λ z. All RuleChecked (t.rows z.0)) (sym q) h'
        ]
