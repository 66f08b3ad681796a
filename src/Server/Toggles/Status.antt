-- ===== src/Server/Toggles/Status.antt =====
-- The reads and the single updates of server/internal/app/usecase/toggle_usecase.go. A toggle
-- points to the one above it by its id, so the walks upwards go as many rounds as there are levels:
-- they take that number as fuel, and answer `none` when it does not do.
use to_toggle.Prelude.{
  ℕ, zero, suc, ◌+◌, Bool, true, false, not, ◌||◌, Option, none, some, List, [], ◌∷◌, Text, text_eq,
  is_empty, is_nil, if◌then◌else◌,
}
use mathlib.Core.List.{reverse}
use to_toggle.Server.Db.{
  database, not_found, invalid, Answer, ok, err, and_then, rename_error, if_found, Table,
  find_first,
}
use to_toggle.Server.Toggles.{Toggle, get_by_path}

abbrev pub prepend : {S : Type 0} → Toggle → S × Option (List Toggle) → S × Option (List Toggle)
prepend x (s, none) = (s, none)
prepend x (s, some l) = (s, some (x ∷ l))

abbrev pub with_chain :
    {S : Type 0} → S × Option (List Toggle) → (List Toggle → Bool × Text) → S × Option (Bool × Text)
with_chain (s, none) f = (s, none)
with_chain (s, some l) f = (s, some (f l))

module _ {S : Type 0} (t : Table S Toggle) where
  -- ToggleRepositoryImpl.GetByID
  abbrev pub get_by_id : Text → S → S × Answer Toggle
  get_by_id toggle_id s = find_first t (λ x. text_eq x.id toggle_id) s

  -- ToggleUseCase.isToggleEnabled
  unfoldable pub is_toggle_enabled : ℕ → Toggle → S → S × Option Bool
  unfolding if_found
  is_toggle_enabled zero x s = (s, none)
  is_toggle_enabled (suc rounds) x s = if not x.enabled then (s, some false) else elim x.parent_id [
    | none ↦ (s, some true)
    | some i ↦ if_found (get_by_id i s) (is_toggle_enabled rounds) (λ s'. (s', some false))
  ]

  -- The first loop of AncestorBlocker: the toggles above, the nearest first.
  unfoldable pub ancestors_above : ℕ → Toggle → S → S × Option (List Toggle)
  unfolding if_found
  ancestors_above zero x s = (s, none)
  ancestors_above (suc rounds) x s = elim x.parent_id [
    | none ↦ (s, some [])
    | some i ↦
        if_found (get_by_id i s) (λ parent s'. prepend parent (ancestors_above rounds parent s'))
          (λ s'. (s', some []))
  ]

  -- ToggleUseCase.GetToggleStatus
  unfoldable pub get_toggle_status : Text → Text → S → S × Answer (Option Bool)
  unfolding get_by_path is_toggle_enabled rename_error and_then
  get_toggle_status path app_id s =
      if is_empty path
      then (s, err (invalid "toggle path is required"))
      else if is_empty app_id
      then (s, err (invalid "application ID is required"))
      else and_then (rename_error not_found (get_by_path t path app_id s))
          (λ x s'. let r = is_toggle_enabled (x.level + 1) x s' in (r.0, ok r.1))

  unfoldable pub set_enabled_of : Bool → Toggle → S → S × Answer Unit
  unfolding rename_error
  set_enabled_of enabled x s = rename_error database (t.save (record x { enabled = enabled }) s)

  -- ToggleUseCase.UpdateToggle
  unfoldable pub update_toggle : Text → Bool → Text → S → S × Answer Unit
  unfolding get_by_path set_enabled_of rename_error and_then
  update_toggle path enabled app_id s =
      if is_empty path
      then (s, err (invalid "toggle path is required"))
      else if is_empty app_id
      then (s, err (invalid "application ID is required"))
      else and_then (rename_error not_found (get_by_path t path app_id s)) (set_enabled_of enabled)

  abbrev pub own : Text → Toggle → S → S × Answer Toggle
  own app_id x s =
      if not (text_eq x.app_id app_id)
      then (s, err (invalid "toggle does not belong to this application"))
      else (s, ok x)

  -- ToggleUseCase.GetToggleByID, with which UpdateToggleByID and UpdateToggleWithRule start.
  unfoldable pub get_toggle_by_id : Text → Text → S → S × Answer Toggle
  unfolding rename_error and_then
  get_toggle_by_id toggle_id app_id s =
      if is_empty toggle_id || is_empty app_id
      then (s, err (invalid "toggle ID and application ID are required"))
      else and_then (rename_error not_found (get_by_id toggle_id s)) (own app_id)

  -- ToggleUseCase.UpdateToggleByID
  unfoldable pub update_toggle_by_id : Text → Bool → Text → S → S × Answer Unit
  unfolding get_toggle_by_id set_enabled_of and_then
  update_toggle_by_id toggle_id enabled app_id s =
      and_then (get_toggle_by_id toggle_id app_id s) (set_enabled_of enabled)

  unfoldable pub update_each : List Text → Bool → Text → S → S × Answer Unit
  unfolding update_toggle_by_id and_then
  update_each [] enabled app_id s = (s, ok tt)
  update_each (i ∷ ids) enabled app_id s =
      and_then (update_toggle_by_id i enabled app_id s) (λ u s'. update_each ids enabled app_id s')

  -- ToggleUseCase.BulkUpdateEnabled
  unfoldable pub bulk_update_enabled : List Text → Bool → Text → S → S × Answer Unit
  unfolding update_each
  bulk_update_enabled ids enabled app_id s =
      if is_nil ids
      then (s, err (invalid "at least one toggle ID is required"))
      else update_each ids enabled app_id s

-- The last loop of AncestorBlocker, from the root on.
unfoldable pub first_off : List Toggle → Bool × Text
first_off [] = (true, [])
first_off (a ∷ rest) =
    let later = first_off rest in if not a.enabled then (false, a.value) else later

-- ToggleUseCase.AncestorBlocker: the chain is turned to start at the root.
unfoldable pub ancestor_blocker :
    {S : Type 0} → Table S Toggle → ℕ → Toggle → S → S × Option (Bool × Text)
unfolding ancestors_above first_off
ancestor_blocker t rounds x s =
    with_chain (ancestors_above t rounds x s) (λ l. first_off (reverse l))
