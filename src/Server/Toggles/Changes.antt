-- ===== src/Server/Toggles/Changes.antt =====
-- UpdateToggleWithRule and UpdateEnabledRecursively of
-- server/internal/app/usecase/toggle_usecase.go, with SetActivationRule and ClearActivationRule of
-- domain/entity/toggle.go.
use to_toggle.Prelude.{
  ℕ, zero, suc, Bool, true, false, ◌&&◌, Option, none, some, List, [], ◌∷◌, Text, text_eq,
  if◌then◌else◌,
}
use to_toggle.Sdk.Strategy.Percentage.{Floats}
use to_toggle.Server.Db.{database, not_found, Answer, ok, err, and_then, rename_error, Table}
use to_toggle.Server.Rules.{Json, validate_rule}
use to_toggle.Server.Rules.Ephemeral.{Unicode, has_ephemeral_context_key_risk}
use to_toggle.Server.Toggles.{Toggle, ActivationRule}
use to_toggle.Server.Toggles.Status.{get_by_id, own, get_toggle_by_id}

-- Toggle.ClearActivationRule
abbrev pub clear_activation_rule : Toggle → Toggle
clear_activation_rule x = record x { activation_rule = none; has_activation_rule = false }

-- A loop over toggles that ends at the first error, or when the rounds do not do.
unfoldable pub update_all :
    {S : Type 0}
    → (Toggle → S → S × Option (Answer Unit))
    → List Toggle
    → S
    → S × Option (Answer Unit)
update_all f [] s = (s, some (ok tt))
update_all f (x ∷ xs) s = go_on (f x s) (update_all f xs)
  where
    go_on :
        {S : Type 0}
        → S × Option (Answer Unit)
        → (S → S × Option (Answer Unit))
        → S × Option (Answer Unit)
    go_on (s, none) g = (s, none)
    go_on (s, some (ok u)) g = g s
    go_on (s, some (err e)) g = (s, some (err e))

-- A statement, and what follows unless it fails.
abbrev pub or_end :
    {S A : Type 0} → S × Answer A → (A → S → S × Option (Answer Unit)) → S × Option (Answer Unit)
or_end (s, ok a) f = f a s
or_end (s, err e) f = (s, some (err e))

-- What SetActivationRule does with the answer of ValidateRule.
unfoldable pub checked_rule : Answer Unit → ActivationRule → Toggle → Answer Toggle
checked_rule (ok u) r x = ok (record x { activation_rule = some r; has_activation_rule = true })
checked_rule (err e) r x = err e

module _ (floats : Floats) (json : Json) where
  -- Toggle.SetActivationRule, with a rule.
  unfoldable pub set_activation_rule : ActivationRule → Toggle → Answer Toggle
  unfolding validate_rule checked_rule
  set_activation_rule r x = checked_rule (validate_rule floats json r) r x

  -- The fields that UpdateToggleWithRule sets before it saves.
  unfoldable pub with_rule : Bool → Bool → Option ActivationRule → Toggle → Answer Toggle
  unfolding set_activation_rule
  with_rule enabled has_rule none x = ok (clear_activation_rule (record x { enabled = enabled }))
  with_rule enabled has_rule (some r) x =
      if has_rule
      then set_activation_rule r (record x { enabled = enabled; has_activation_rule = has_rule })
      else ok (clear_activation_rule (record x { enabled = enabled }))

  -- Whether the answer has the warning on the context key.
  abbrev pub rule_context_warning : Unicode → Bool → Option ActivationRule → Bool
  rule_context_warning u has_rule none = false
  rule_context_warning u has_rule (some r) = has_rule && has_ephemeral_context_key_risk u json r

module _ {S : Type 0} (t : Table S Toggle) where
  -- ToggleRepositoryImpl.GetChildren
  abbrev pub get_child_toggles : Text → S → S × Answer (List Toggle)
  get_child_toggles i s = t.find (λ x. elim x.parent_id [ none ↦ false | some j ↦ text_eq j i ]) s

  -- ToggleUseCase.UpdateEnabledRecursively, on rounds as fuel.
  unfoldable pub update_enabled_recursively : ℕ → Text → Bool → Text → S → S × Option (Answer Unit)
  unfolding update_all rename_error and_then
  update_enabled_recursively zero i enabled app_id s = (s, none)
  update_enabled_recursively (suc rounds) i enabled app_id s =
      or_end (and_then (rename_error not_found (get_by_id t i s)) (own t app_id)) (λ x s1.
        or_end (rename_error database (t.save (record x { enabled = enabled }) s1)) (λ u s2.
          or_end (rename_error database (get_child_toggles i s2))
            (update_all (λ c. update_enabled_recursively rounds c.id enabled app_id))))

  module _ (floats : Floats) (json : Json) where
    unfoldable pub save_with_rule :
        Unicode → Bool → Option ActivationRule → Toggle → S → S × Answer (Toggle × Bool)
    unfolding rename_error and_then
    save_with_rule u has_rule rule x s =
        and_then (rename_error database (t.save x s))
          (λ n s'. (s', ok (x, rule_context_warning floats json u has_rule rule)))

    unfoldable pub change_rule :
        Unicode → Bool → Bool → Option ActivationRule → Toggle → S → S × Answer (Toggle × Bool)
    unfolding with_rule save_with_rule and_then
    change_rule u enabled has_rule rule x s =
        and_then (s, with_rule floats json enabled has_rule rule x) (save_with_rule u has_rule rule)

    -- ToggleUseCase.UpdateToggleWithRule
    unfoldable pub update_toggle_with_rule :
        Unicode → Text → Bool → Bool → Option ActivationRule → Text → S → S × Answer (Toggle × Bool)
    unfolding get_toggle_by_id change_rule and_then
    update_toggle_with_rule u i enabled has_rule rule app_id s =
        and_then (get_toggle_by_id t i app_id s) (change_rule u enabled has_rule rule)
