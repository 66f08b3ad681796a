-- ===== src/Sdk/Catalog.antt =====
-- totoggle_go/internal/toggle/{toggle,application}.go: the toggles fetched for one application,
-- indexed by path. A Go map is a list of its entries; a write replaces the entry of its key.
pub mod Lookup
use to_toggle.Prelude.{
  ℕ, ◌≡◌, Bool, Option, none, some, List, [], ◌∷◌, Text, text_eq, if◌then◌else◌,
}
use to_toggle.Sdk.Path.{FlagPath, ancestor_paths}
use to_toggle.Sdk.Rule.{ActivationRule}

pub record Flag : Type 0 where
  pub id : Text
  pub path : FlagPath
  pub label : Text
  pub enabled : Bool
  pub level : ℕ
  pub parent_id : Option Text
  pub app_id : Text
  pub has_activation_rule : Bool
  pub activation_rule : Option ActivationRule

abbrev pub Index : Type 0
Index = List (Text × Flag)

-- `m[k]`
unfoldable pub lookup : Text → Index → Option Flag
lookup k [] = none
lookup k ((j, v) ∷ m) = if text_eq j k then some v else lookup k m

-- `m[k] = v`
unfoldable pub insert : Text → Flag → Index → Index
insert k v [] = (k, v) ∷ []
insert k v ((j, w) ∷ m) = if text_eq j k then (k, v) ∷ m else (j, w) ∷ insert k v m

pub record Catalog : Type 0 where
  pub toggles : List Flag
  pub by_path : Index

-- The loop of NewApplication.
unfoldable pub index_from : Index → List Flag → Index
index_from m [] = m
index_from m (t ∷ ts) = index_from (insert t.path.value t m) ts

-- NewApplication
unfoldable pub new_application : List Flag → Catalog
unfolding index_from
new_application ts = record { toggles = ts; by_path = index_from [] ts }

-- The zero value `Application{}`.
abbrev pub empty_catalog : Catalog
empty_catalog = record { toggles = []; by_path = [] }

-- Application.ByPath
unfoldable pub by_path : Catalog → FlagPath → Option Flag
unfolding lookup
by_path a p = lookup p.value a.by_path

abbrev pub cons_some : Option Flag → List Flag → List Flag
cons_some none l = l
cons_some (some t) l = t ∷ l

-- The loop of AncestorsOf.
unfoldable pub present : Index → List FlagPath → List Flag
unfolding lookup
present m [] = []
present m (p ∷ ps) = cons_some (lookup p.value m) (present m ps)

-- Application.AncestorsOf
unfoldable pub ancestors_of : Catalog → FlagPath → List Flag
unfolding present
ancestors_of a p = present a.by_path (ancestor_paths p)
