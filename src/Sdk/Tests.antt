-- ===== src/Sdk/Tests.antt =====
-- Evaluations on concrete inputs, and instances of the theorems on paths, catalogs and strategies.
use to_toggle.Prelude.{
  ◌≡◌, refl, ◌↔◌, inl, true, false, List, [], ◌∷◌, Text, codes, text_eq, trim_space, join, split,
  has_prefix, In, ltb, ◌+◌, ◌-◌, ◌%◌, arith,
}
use to_toggle.Sdk.Path.{FlagPath, valid, new_path, ancestor_paths}
use to_toggle.Sdk.Rule.{ActivationRule, user_id, percentage, valid_context_key, context_key}
use to_toggle.Sdk.Catalog.{insert, new_application}
use to_toggle.Sdk.Strategy.MatchList.{match_list}
use to_toggle.Sdk.Strategy.Window.{in_window, in_window_arc}
use to_toggle.Sdk.Strategy.Percentage.{bucket}
use to_toggle.Sdk.Strategy.Registry.{evaluate, new_strategy_registry}
use to_toggle.Sdk.Client.Evaluate.{is_active, evaluate_rule, evaluate_ancestors}
use to_toggle.Sdk.Client.Cascade.{IsOn, is_active_iff}
use to_toggle.Sdk.Samples.{for_user}

bob_has_cart : (is_active (for_user (codes "bob")) (codes "shop.cart")).0 ≡ true
unfolding is_active evaluate_rule evaluate_ancestors new_application context_key valid_context_key
    evaluate new_strategy_registry match_list new_path insert ancestor_paths text_eq trim_space
    split join has_prefix
bob_has_cart = refl

old_page_is_off : (is_active (for_user (codes "bob")) (codes "old.page")).0 ≡ false
unfolding is_active evaluate_rule evaluate_ancestors new_application insert new_path ancestor_paths
    text_eq split join
old_page_is_off = refl

is_active_iff_example :
    ((is_active (for_user (codes "bob")) (codes "shop.cart")).0 ≡ true)
    ↔ IsOn (for_user (codes "bob")) (codes "shop.cart")
is_active_iff_example = is_active_iff (for_user (codes "bob")) (codes "shop.cart")

abbrev cart_path : FlagPath
cart_path = record { value = codes "shop.cart" }

cart_is_valid : new_path (codes "shop.cart") ≡ valid cart_path
unfolding new_path split
cart_is_valid = refl

shop_above_cart : In (record { value = codes "shop" }) (ancestor_paths cart_path)
unfolding ancestor_paths split join
shop_above_cart = inl refl

abbrev listed : List Text
listed = codes "ann" ∷ codes "bob" ∷ []

abbrev for_ann_bob : ActivationRule
for_ann_bob = record { kind = user_id; value = codes "ann,bob"; config = codes "user_id" }

-- 23:00 lies in the window from 22:00 to 06:00.
in_window_arc_example :
    in_window 1320 360 1380 ≡ ltb ((1380 + 1440 - 1320) % 1440) ((360 + 1440 - 1320) % 1440)
in_window_arc_example = in_window_arc 1320 360 1380 (omega arith) (omega arith) (omega arith)

abbrev everyone : ActivationRule
everyone = record { kind = percentage; value = codes "100"; config = codes "rollout_key" }

-- FNV-1a of "50:ann", modulo 10000.
bucket_of_ann : bucket (codes "50") (codes "ann") ≡ 7909
unfolding bucket
bucket_of_ann = refl
