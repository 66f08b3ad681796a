-- ===== src/Server/Toggles/Archive.antt =====
-- The deletion and the restoration of a toggle with the toggles below it, in
-- server/internal/app/usecase/toggle_usecase.go and infrastructure/database/toggle_repository.go. The
-- rows are those of the table itself: gorm adds "not deleted" to a query, unless it is Unscoped. One
-- reading of the clock stands for those of a call. The walks downwards take their rounds as fuel.
use to_toggle.Prelude.{
  ℕ, zero, suc, Bool, true, false, not, ◌&&◌, ◌||◌, Option, none, some, List, [], ◌∷◌, Text,
  text_eq, is_empty, is_nil, map, if◌then◌else◌,
}
use to_toggle.Server.Db.{
  Fault, database, not_found, invalid, Answer, ok, err, and_then, rename_error, Table, find_first,
}
use to_toggle.Server.Toggles.{Toggle, has_path}
pub mod Below
pub mod Deletion
pub mod Depth
mod Tests

pub record Stored : Type 0 where
  pub toggle : Toggle
  pub deleted_at : Option ℕ
  pub deleted_by : Option Text
  pub archived_root : Bool

abbrev pub is_live : Stored → Bool
is_live x = elim x.deleted_at [ none ↦ true | some at ↦ false ]

abbrev pub has_id : Text → Stored → Bool
has_id i x = text_eq x.toggle.id i

abbrev pub is_child_of : Text → Stored → Bool
is_child_of i x = elim x.toggle.parent_id [ none ↦ false | some j ↦ text_eq j i ]

-- A result, or `none` when the rounds do not do.
abbrev pub Walk : Type 0 → Type 0
Walk S = S × Option (Answer Unit)

-- Go on after a walk that ended without an error.
abbrev pub after_walk : {S : Type 0} → Walk S → (S → Walk S) → Walk S
after_walk (s, none) f = (s, none)
after_walk (s, some (ok u)) f = f s
after_walk (s, some (err e)) f = (s, some (err e))

abbrev pub ended : {S : Type 0} → S × Answer Unit → Walk S
ended (s, a) = (s, some a)

-- A loop over toggles that ends at the first error.
unfoldable pub for_each : {S : Type 0} → (Stored → S → Walk S) → List Stored → S → Walk S
for_each f [] s = (s, some (ok tt))
for_each f (x ∷ xs) s = after_walk (f x s) (for_each f xs)

-- The loop over what a query gives.
unfoldable pub for_found : {S : Type 0} → (Stored → S → Walk S) → S × Answer (List Stored) → Walk S
unfolding for_each
for_found f (s, err e) = (s, some (err e))
for_found f (s, ok xs) = for_each f xs s

module _ {S : Type 0} (t : Table S Stored) where
  -- ToggleRepositoryImpl.GetByID, GetByIDUnscoped, GetChildren, GetChildrenUnscoped and Exists.
  abbrev pub get_live : Text → S → S × Answer Stored
  get_live i s = find_first t (λ x. is_live x && has_id i x) s

  abbrev pub get_by_id_unscoped : Text → S → S × Answer Stored
  get_by_id_unscoped i s = find_first t (has_id i) s

  abbrev pub get_children : Text → S → S × Answer (List Stored)
  get_children i s = t.find (λ x. is_live x && is_child_of i x) s

  abbrev pub get_children_unscoped : Text → S → S × Answer (List Stored)
  get_children_unscoped i s = t.find (is_child_of i) s

  abbrev pub find_at : Text → Text → S → S × Answer (List Stored)
  find_at path app_id s = t.find (λ x. is_live x && has_path path app_id x.toggle) s

  -- ToggleRepositoryImpl.MarkDeletionMeta
  abbrev pub mark_deletion_meta : Text → Text → S → S × Answer Unit
  mark_deletion_meta i deleted_by s =
      t.update (λ x. is_live x && has_id i x)
        (λ x. record x { deleted_by = some deleted_by; archived_root = true }) s

  -- gorm's Delete of a row with a deleted_at column.
  abbrev pub soft_delete : ℕ → Text → S → S × Answer Unit
  soft_delete now i s =
      t.update (λ x. is_live x && has_id i x) (λ x. record x { deleted_at = some now }) s

  abbrev pub undelete : Text → S → S × Answer Unit
  undelete i s =
      t.update (has_id i)
        (λ x. record x { deleted_at = none; deleted_by = none; archived_root = false }) s

  -- ToggleRepositoryImpl.Delete
  unfoldable pub delete_below : ℕ → ℕ → Text → S → Walk S
  unfolding for_found
  delete_below now zero i s = (s, none)
  delete_below now (suc rounds) i s =
      after_walk (for_found (λ x. delete_below now rounds x.toggle.id) (get_children i s))
        (λ s'. ended (soft_delete now i s'))

  -- ToggleRepositoryImpl.Restore
  unfoldable pub restore_below : ℕ → Text → S → Walk S
  unfolding for_found
  restore_below zero i s = (s, none)
  restore_below (suc rounds) i s =
      after_walk (for_found (λ x. restore_below rounds x.toggle.id) (get_children_unscoped i s))
        (λ s'. ended (undelete i s'))

  abbrev pub free_path : S × Answer (List Stored) → S × Answer Unit
  free_path (s, err e) = (s, err database)
  free_path (s, ok []) = (s, ok tt)
  free_path (s, ok (x ∷ xs)) = (s, err (invalid "a toggle already exists at the path"))

  -- ToggleUseCase.checkRestoreCollision
  unfoldable pub check_restore_collision : ℕ → Stored → S → Walk S
  unfolding for_found
  check_restore_collision zero x s = (s, none)
  check_restore_collision (suc rounds) x s =
      after_walk (ended (free_path (find_at x.toggle.path x.toggle.app_id s))) (λ s'.
        for_found (check_restore_collision rounds)
          (rename_error database (get_children_unscoped x.toggle.id s')))

  abbrev pub or_database : Walk S → Walk S
  or_database (s, none) = (s, none)
  or_database (s, some a) = ended (rename_error database (s, a))

  abbrev pub of_application : Text → Stored → S → S × Answer Stored
  of_application app_id x s =
      if not (text_eq x.toggle.app_id app_id)
      then (s, err (invalid "toggle does not belong to this application"))
      else (s, ok x)

  abbrev pub walk_from : S × Answer Stored → (Stored → S → Walk S) → Walk S
  walk_from (s, err e) f = (s, some (err e))
  walk_from (s, ok x) f = f x s

  -- ToggleUseCase.DeleteToggleByID
  unfoldable pub delete_toggle_by_id : ℕ → ℕ → Text → Text → Text → S → Walk S
  unfolding delete_below rename_error and_then
  delete_toggle_by_id now rounds toggle_id app_id deleted_by s =
      if is_empty toggle_id || is_empty app_id
      then (s, some (err (invalid "toggle ID and application ID are required")))
      else walk_from
          (and_then (rename_error not_found (get_live toggle_id s)) (of_application app_id))
          (λ x s'.
            after_walk (ended (rename_error database (mark_deletion_meta toggle_id deleted_by s')))
              (λ s''. or_database (delete_below now rounds toggle_id s'')))

  -- ToggleUseCase.RestoreToggle
  unfoldable pub restore_toggle : ℕ → Text → Text → S → Walk S
  unfolding restore_below check_restore_collision rename_error and_then
  restore_toggle rounds toggle_id app_id s =
      if is_empty toggle_id || is_empty app_id
      then (s, some (err (invalid "toggle ID and application ID are required")))
      else walk_from
          (and_then (rename_error not_found (get_by_id_unscoped toggle_id s))
            (of_application app_id))
          (λ x s'.
            if not x.archived_root
            then (
              s',
              some (err (invalid "only the root of an archived deletion can be restored directly")),
            )
            else after_walk (check_restore_collision rounds x s')
                (λ s''. or_database (restore_below rounds toggle_id s'')))
