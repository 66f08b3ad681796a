-- ===== src/Server/Toggles/Archive/Tests.antt =====
-- Deletions and restorations on a small table.
use to_toggle.Prelude.{◌≡◌, refl, true, false, none, some, List, [], ◌∷◌, codes, text_eq}
use to_toggle.Server.Db.{Table, ok, find_first}
use to_toggle.Server.Db.Memory.{memory}
use to_toggle.Server.Toggles.{Toggle, new_toggle}
use to_toggle.Server.Toggles.Archive.{Stored, delete_below, delete_toggle_by_id, restore_toggle}
use to_toggle.Server.Toggles.Archive.Below.{Below}

abbrev rows : Table (List Stored) Stored
rows = memory (λ x. x.toggle.id)

abbrev live : Toggle → Stored
live x = record { toggle = x; deleted_at = none; deleted_by = none; archived_root = false }

abbrev pay : Stored
pay = live (new_toggle (1 ∷ []) (codes "pay") true (codes "pay") 0 none (codes "app"))

abbrev card : Stored
card =
    live
      (new_toggle (2 ∷ []) (codes "card") true (codes "pay.card") 1 (some (1 ∷ [])) (codes "app"))

abbrev card_again : Stored
card_again =
    live
      (new_toggle (3 ∷ []) (codes "card") true (codes "pay.card") 1 (some (1 ∷ [])) (codes "app"))

abbrev pay_deleted : List Stored
pay_deleted =
    (delete_toggle_by_id rows 7 2 (1 ∷ []) (codes "app") (codes "ana") (pay ∷ card ∷ [])).0

deletes_both :
    delete_toggle_by_id rows 7 2 (1 ∷ []) (codes "app") (codes "ana") (pay ∷ card ∷ []) ≡ (
      record pay { deleted_at = some 7; deleted_by = some (codes "ana"); archived_root = true }
          ∷ record card { deleted_at = some 7 }
          ∷ [],
      some (ok tt),
    )
unfolding delete_toggle_by_id find_first text_eq
deletes_both = refl

restores_both :
    restore_toggle rows 2 (1 ∷ []) (codes "app") pay_deleted ≡ (pay ∷ card ∷ [], some (ok tt))
unfolding restore_toggle find_first delete_toggle_by_id text_eq
restores_both = refl

-- The card is deleted and made again, then the toggle above is deleted and restored: two live
-- toggles stand at the one path.
abbrev card_deleted : List Stored
card_deleted =
    (delete_toggle_by_id rows 5 2 (2 ∷ []) (codes "app") (codes "ana") (pay ∷ card ∷ [])).0

abbrev all_deleted : List Stored
all_deleted =
    (delete_toggle_by_id rows 7 2 (1 ∷ []) (codes "app") (codes "ana") (
      record pay { archived_root = false }
      ∷ record card { deleted_at = some 5; deleted_by = some (codes "ana"); archived_root = true }
      ∷ card_again
      ∷ [])).0

card_was_deleted :
    card_deleted
    ≡ pay
      ∷ record card { deleted_at = some 5; deleted_by = some (codes "ana"); archived_root = true }
      ∷ []
unfolding delete_toggle_by_id find_first text_eq
card_was_deleted = refl

restores_two_at_one_path :
    restore_toggle rows 2 (1 ∷ []) (codes "app") all_deleted
    ≡ (pay ∷ card ∷ card_again ∷ [], some (ok tt))
unfolding restore_toggle find_first delete_toggle_by_id text_eq
restores_two_at_one_path = refl

-- A toggle that was deleted before the one above it is restored while that one stays deleted.
restores_below_a_deleted_one :
    restore_toggle rows 2
      (2 ∷ [])
      (codes "app")
      (delete_toggle_by_id rows 7 2 (1 ∷ []) (codes "app") (codes "ana") card_deleted).0
    ≡ (
      record pay { deleted_at = some 7; deleted_by = some (codes "ana"); archived_root = true }
          ∷ card
          ∷ [],
      some (ok tt),
    )
unfolding restore_toggle find_first delete_toggle_by_id text_eq
restores_below_a_deleted_one = refl

abbrev two_live : List Stored
two_live = pay ∷ card ∷ []

below_is_deleted :
    delete_below rows 7 2 (1 ∷ []) two_live
    ≡ (record pay { deleted_at = some 7 } ∷ record card { deleted_at = some 7 } ∷ [], some (ok tt))
unfolding delete_below text_eq
below_is_deleted = refl
