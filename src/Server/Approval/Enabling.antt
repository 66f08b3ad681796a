-- ===== src/Server/Approval/Enabling.antt =====
-- What the execution of an approved change of a toggle in
-- server/internal/app/usecase/approval_usecase.go does when the change names no rule.
use to_toggle.Prelude.{
  ◌≡◌, refl, sym, ap, ◌∙◌, subst, Bool, true, false, ◌||◌, Option, none, some, Text, text_eq,
  text_eq_iff, is_empty, In, arith,
}
use to_toggle.Sdk.Strategy.Percentage.{Floats}
use to_toggle.Server.Db.{
  database, not_found, Answer, ok, and_then, and_then_ok, rename_error, rename_error_ok, Table,
  Lawful, put_row,
}
use to_toggle.Server.Db.Reads.{find_first_ok, find_first_keeps}
use to_toggle.Server.Rules.{Json}
use to_toggle.Server.Rules.Ephemeral.{Unicode}
use to_toggle.Server.Toggles.{Toggle, ActivationRule}
use to_toggle.Server.Toggles.Status.{get_by_id, own, get_toggle_by_id}
use to_toggle.Server.Toggles.Changes.{
  with_rule, clear_activation_rule, rule_context_warning, save_with_rule, change_rule,
  update_toggle_with_rule,
}
use to_toggle.Server.Approval.{ApprovalRequest}
use to_toggle.Server.Approval.Execution.{ActionData, Reader, execute_toggle_update}

ok-inj : {A : Type 0} {a b : A} → ok a ≡ ok b → a ≡ b
ok-inj h = cc

with_rule-clear :
    (floats : Floats) (json : Json) (enabled : Bool) (rule : Option ActivationRule) (x : Toggle)
    → with_rule floats json enabled false rule x
      ≡ ok (clear_activation_rule (record x { enabled = enabled }))
unfolding with_rule
with_rule-clear floats json enabled none x = refl
with_rule-clear floats json enabled (some r) x = refl

module _ {S : Type 0} (t : Table S Toggle) (law : Lawful (λ x. x.id) t) where
  own_ok :
      (app_id : Text) (x y : Toggle) (s : S)
      → (own t app_id x s).1 ≡ ok y
      → (x ≡ y) × (text_eq x.app_id app_id ≡ true) × ((own t app_id x s).0 ≡ s)
  own_ok app_id x y s h = ground (arith, h)

  get_toggle_by_id_ok :
      (i app_id : Text) (x : Toggle) (s : S)
      → (get_toggle_by_id t i app_id s).1 ≡ ok x
      → In x (t.rows s)
        × (x.id ≡ i)
        × (x.app_id ≡ app_id)
        × (t.rows (get_toggle_by_id t i app_id s).0 ≡ t.rows s)
  unfolding get_toggle_by_id
  get_toggle_by_id_ok i app_id x s h =
      let p : Toggle → Bool = (λ y. text_eq y.id i) in
      let found = rename_error not_found (get_by_id t i s) in
      let full : (is_empty i || is_empty app_id) ≡ false = ground (arith, h) in
      let whole : get_toggle_by_id t i app_id s ≡ and_then found (own t app_id) = rw full refl in
      let (y, e, q, k) = and_then_ok found (own t app_id) x (ap (λ z. z.1) (sym whole) ∙ h) in
      let (e', same) = rename_error_ok not_found (get_by_id t i s) y e in
      let (m, c) = find_first_ok (λ z. z.id) t law p s y e' in
      let (one, apps, state) = own_ok app_id y x found.0 k in
      (
        subst (λ z. In z (t.rows s)) one m,
        ap (λ z. z.id) (sym one) ∙ (text_eq_iff y.id i).0 c,
        ap (λ z. z.app_id) (sym one) ∙ (text_eq_iff y.app_id app_id).0 apps,
        ap (λ z. t.rows z.0) (whole ∙ q)
            ∙ (ap t.rows (state ∙ same) ∙ find_first_keeps (λ z. z.id) t law p s),
      )

  module _ (floats : Floats) (json : Json) (u : Unicode) where
    save_with_rule-put_row :
        (has_rule : Bool) (rule : Option ActivationRule) (x : Toggle) (s : S) (r : Toggle × Bool)
        → (save_with_rule t floats json u has_rule rule x s).1 ≡ ok r
        → t.rows (save_with_rule t floats json u has_rule rule x s).0
          ≡ put_row (λ z. z.id) x (t.rows s)
    unfolding save_with_rule
    save_with_rule-put_row has_rule rule x s r h =
        let saved = rename_error database (t.save x s) in
        let answer : Unit → S → S × Answer (Toggle × Bool) =
          (λ n s'. (s', ok (x, rule_context_warning floats json u has_rule rule))) in
        let (n, e, q, k) = and_then_ok saved answer r h in
        let (done, same) = rename_error_ok database (t.save x s) n e in
        ap (λ z. t.rows z.0) q ∙ (ap t.rows same ∙ law.save_ok x s done)

    update_toggle_with_rule-clear :
        (i : Text) (enabled : Bool) (rule : Option ActivationRule) (app_id : Text) (s : S)
        (r : Toggle × Bool)
        → (update_toggle_with_rule t floats json u i enabled false rule app_id s).1 ≡ ok r
        → (x : Toggle) × In x (t.rows s)
          × (x.id ≡ i)
          × (x.app_id ≡ app_id)
          × (t.rows (update_toggle_with_rule t floats json u i enabled false rule app_id s).0
              ≡ put_row
                  (λ z. z.id)
                  (clear_activation_rule (record x { enabled = enabled }))
                  (t.rows s))
    unfolding update_toggle_with_rule change_rule
    update_toggle_with_rule-clear i enabled rule app_id s r h =
        let got = get_toggle_by_id t i app_id s in
        let (x, e, q, k) = and_then_ok got (change_rule t floats json u enabled false rule) r h in
        let (m, same_id, same_app, kept) = get_toggle_by_id_ok i app_id x s e in
        let made : S × Answer Toggle = (got.0, with_rule floats json enabled false rule x) in
        let (y, f, w, k') = and_then_ok made (save_with_rule t floats json u false rule) r k in
        let cleared : y ≡ clear_activation_rule (record x { enabled = enabled }) =
          ok-inj (sym f ∙ with_rule-clear floats json enabled rule x) in
        (
          x,
          m,
          same_id,
          same_app,
          ap (λ z. t.rows z.0) (q ∙ w)
              ∙ (save_with_rule-put_row false rule y got.0 r k'
                  ∙ (ap (put_row (λ z. z.id) y) kept
                      ∙ ap (λ z. put_row (λ v. v.id) z (t.rows s)) cleared)),
        )

    -- On a lawful table, when the execution of an approved change of a toggle succeeds and the data
    -- of the request names no rule, the stored toggle of that id and application is switched as the
    -- data says, it loses the rule that it had, and no other toggle changes, those below it included.
    pub execute_toggle_update-clear :
        (read : Reader) (ar : ApprovalRequest) (d : ActionData) (i app : Text) (s : S)
        → read ar.action_data ≡ some d
        → d.has_activation_rule ≡ false
        → ar.toggle_id ≡ some i
        → ar.application_id ≡ some app
        → (execute_toggle_update read t floats json u ar s).1 ≡ ok tt
        → (x : Toggle) × In x (t.rows s)
          × (x.id ≡ i)
          × (x.app_id ≡ app)
          × (t.rows (execute_toggle_update read t floats json u ar s).0
              ≡ put_row
                  (λ z. z.id)
                  (clear_activation_rule (record x { enabled = d.enabled }))
                  (t.rows s))
    unfolding execute_toggle_update
    execute_toggle_update-clear read ar d i app s decoded plain toggle application h =
        let updated =
          update_toggle_with_rule t floats json u i d.enabled false d.activation_rule app s in
        let finish : Toggle × Bool → S → S × Answer Unit = (λ x s4. (s4, ok tt)) in
        let whole : execute_toggle_update read t floats json u ar s ≡ and_then updated finish =
          rw (decoded, toggle, application, plain) refl in
        let (r, e, q, k) = and_then_ok updated finish tt (ap (λ z. z.1) (sym whole) ∙ h) in
        let (x, m, a, b, rows) =
          update_toggle_with_rule-clear i d.enabled d.activation_rule app s r e in
        (x, m, a, b, ap (λ z. t.rows z.0) (whole ∙ q) ∙ rows)
