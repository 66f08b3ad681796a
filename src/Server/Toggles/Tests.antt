-- ===== src/Server/Toggles/Tests.antt =====
-- The creation of a toggle at a concrete path.
use to_toggle.Prelude.{
  has_prefix, join, split, text_eq, ℕ, ◌≡◌, refl, Bool, true, false, ◌&&◌, none, some, List, [],
  ◌∷◌, Text, codes, All, inl, inr, arith,
}
use to_toggle.Server.Db.{find_first, ok, err, not_found, Table, Lawful}
use to_toggle.Server.Approval.Workflow.{Named}
use to_toggle.Server.Approval.Sample.{part, part-Lawful}
use to_toggle.Sdk.Samples.{hundredths_of_one}
use to_toggle.Server.Rules.{Json}
use to_toggle.Server.Rules.Ephemeral.{has_ephemeral_context_key_risk, Unicode}
use to_toggle.Server.Toggles.Changes.{update_toggle_with_rule, update_enabled_recursively}
use to_toggle.Server.Toggles.StoredRules.{RuleChecked, update_toggle_with_rule-RuleChecked}
use to_toggle.Server.Toggles.{ActivationRule, Toggle, new_toggle, create_toggle}
use to_toggle.Server.Toggles.Ancestors.{create_toggle-ancestor_paths}
use to_toggle.Sdk.Path.{FlagPath, ancestor_paths}
use to_toggle.Server.Toggles.Creation.{StandsAt, Grows, AddsEnabled}
use to_toggle.Server.Toggles.Levels.{Levelled}
use to_toggle.Server.Toggles.Placing.{create_toggle-Levelled}
use to_toggle.Server.Toggles.Status.{
  is_toggle_enabled, ancestor_blocker, get_toggle_status, update_toggle, bulk_update_enabled,
}
use to_toggle.Server.Toggles.Walks.{
  IsSome, is_toggle_enabled_ends, is_toggle_enabled-ancestor_blocker,
}

abbrev toggles : Table (List Toggle × List Named) Toggle
toggles = part (λ x. x.id) (λ d. d.0) (λ l d. (l, d.1))

abbrev applications : Table (List Toggle × List Named) Named
applications = part (λ a. a.id) (λ d. d.1) (λ l d. (d.0, l))

abbrev ulids : ℕ → Text
ulids level = 7 ∷ level ∷ []

abbrev shop : List Toggle × List Named
shop = (
  new_toggle (1 ∷ []) (codes "pay") false (codes "pay") 0 none (codes "app") ∷ [],
  record { id = codes "app"; label = codes "Shop" } ∷ [],
)

creates :
    (create_toggle toggles applications ulids (codes "pay.card.new") false (codes "app") shop).1
    ≡ ok tt
unfolding create_toggle find_first text_eq split join
creates = refl

abbrev pay_card_new : FlagPath
pay_card_new = record { value = codes "pay.card.new" }

create_toggle-ancestor_paths_example :
    let rows' =
      (create_toggle toggles applications ulids
        (codes "pay.card.new")
        false
        (codes "app")
        shop).0.0 in
    All (λ q. StandsAt (codes "app") rows' q.value) (ancestor_paths pay_card_new)
    × Grows shop.0 rows'
    × AddsEnabled shop.0 rows'
create_toggle-ancestor_paths_example =
    create_toggle-ancestor_paths toggles
      (part-Lawful (λ x. x.id) (λ d. d.0) (λ l d. (l, d.1)) (λ l d. refl)) applications ulids
      pay_card_new false (codes "app") shop (λ p s. refl) creates

abbrev pay_law : Lawful (λ x. x.id) toggles
pay_law = part-Lawful (λ x. x.id) (λ d. d.0) (λ l d. (l, d.1)) (λ l d. refl)

shop-Levelled : Levelled shop.0
unfolding split
shop-Levelled = ((tt, tt), ((refl, tt), tt))

create_toggle-Levelled_example :
    Levelled
      (create_toggle toggles applications ulids (codes "pay.card.new") true (codes "app") shop).0.0
create_toggle-Levelled_example =
    create_toggle-Levelled toggles pay_law applications ulids (codes "pay.card.new") true
      (codes "app") shop (λ p s. refl) shop-Levelled

-- A toggle that is to be off is on once it was created.
created_off_is_on :
    (get_toggle_status toggles
      (codes "beta")
      (codes "app")
      (create_toggle toggles applications ulids (codes "beta") false (codes "app") shop).0).1
    ≡ ok (some true)
unfolding get_toggle_status create_toggle find_first text_eq split join
created_off_is_on = refl

-- Two levels: a toggle that is on below one that is off.
abbrev card : Toggle
card = new_toggle (2 ∷ []) (codes "card") true (codes "pay.card") 1 (some (1 ∷ [])) (codes "app")

abbrev pay : Toggle
pay = new_toggle (1 ∷ []) (codes "pay") false (codes "pay") 0 none (codes "app")

abbrev two_levels : List Toggle × List Named
two_levels = (pay ∷ card ∷ [], [])

two_levels-Levelled : Levelled two_levels.0
unfolding split
two_levels-Levelled =
    ((((λ e. cc), tt), (tt, tt)), ((refl, tt), ((refl, (pay, inl refl, refl, refl)), tt)))

is_toggle_enabled_ends_example :
    IsSome (is_toggle_enabled toggles 2 card two_levels).1
    × IsSome (ancestor_blocker toggles 2 card two_levels).1
is_toggle_enabled_ends_example =
    is_toggle_enabled_ends toggles pay_law card two_levels two_levels-Levelled (inr (inl refl)) 2
      (omega arith)

is_toggle_enabled-ancestor_blocker_example :
    (free : Bool) × (name : Text) × ((ancestor_blocker toggles 2 card two_levels).1
      ≡ some (free, name))
    × ((is_toggle_enabled toggles 2 card two_levels).1 ≡ some (true && free))
is_toggle_enabled-ancestor_blocker_example =
    is_toggle_enabled-ancestor_blocker toggles pay_law card two_levels two_levels (λ q s. (_, refl))
      two_levels-Levelled refl (inr (inl refl)) 2 (omega arith)

blocked_by_pay : (ancestor_blocker toggles 2 card two_levels).1 ≡ some (false, codes "pay")
unfolding ancestor_blocker find_first text_eq
blocked_by_pay = refl

off_below_pay :
    (get_toggle_status toggles (codes "pay.card") (codes "app") two_levels).1 ≡ ok (some false)
unfolding get_toggle_status find_first text_eq
off_below_pay = refl

on_after_update :
    (get_toggle_status toggles
      (codes "pay.card")
      (codes "app")
      (update_toggle toggles (codes "pay") true (codes "app") two_levels).0).1
    ≡ ok (some true)
unfolding get_toggle_status find_first update_toggle text_eq
on_after_update = refl

bulk_stops_at_the_first_error :
    (bulk_update_enabled toggles
      ((2 ∷ []) ∷ (9 ∷ []) ∷ (1 ∷ []) ∷ [])
      false
      (codes "app")
      two_levels)
    ≡ ((pay ∷ record card { enabled = false } ∷ [], []), err not_found)
unfolding bulk_update_enabled find_first text_eq
bulk_stops_at_the_first_error = refl

-- Configurations of one field, written without braces and quotes.
abbrev plain : Json
plain = record { object = λ c. some ((codes "context_key", c) ∷ []); string = λ v. some v }

abbrev no_letters : Unicode
no_letters = record { is_alphanumeric = λ c. false; to_lower = λ s. s }

abbrev by_country : ActivationRule
by_country = record { kind = codes "country"; value = codes "BR"; config = codes "country" }

update_toggle_with_rule-RuleChecked_example :
    All
      (RuleChecked hundredths_of_one plain)
      (update_toggle_with_rule toggles hundredths_of_one plain no_letters
        (2 ∷ [])
        true
        true
        (some by_country)
        (codes "app")
        two_levels).0.0
update_toggle_with_rule-RuleChecked_example =
    update_toggle_with_rule-RuleChecked hundredths_of_one plain toggles pay_law no_letters (2 ∷ [])
      true true (some by_country) (codes "app") two_levels ((λ r e. cc), ((λ r e. cc), tt))

rule_is_stored :
    (update_toggle_with_rule toggles hundredths_of_one plain no_letters
      (2 ∷ [])
      true
      true
      (some by_country)
      (codes "app")
      two_levels)
    ≡ (
      (
        pay ∷ record card { has_activation_rule = true; activation_rule = some by_country } ∷ [],
        [],
      ),
      ok (record card { has_activation_rule = true; activation_rule = some by_country }, false),
    )
unfolding update_toggle_with_rule find_first text_eq has_prefix has_ephemeral_context_key_risk
rule_is_stored = refl

whole_branch_is_turned_off :
    (update_enabled_recursively toggles 2 (1 ∷ []) false (codes "app") two_levels)
    ≡ ((pay ∷ record card { enabled = false } ∷ [], []), some (ok tt))
unfolding update_enabled_recursively find_first text_eq
whole_branch_is_turned_off = refl
