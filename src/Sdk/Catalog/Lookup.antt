-- ===== src/Sdk/Catalog/Lookup.antt =====
-- The index of a catalog: which toggle is found at a path.
use to_toggle.Prelude.{
  ◌≡◌, refl, ◌∙◌, ◌⊎◌, inl, Option, none, some, List, [], ◌∷◌, Text, text_eq, text_eq_iff, In,
  arith, if◌then◌else◌,
}
use to_toggle.Sdk.Path.{FlagPath}
use to_toggle.Sdk.Catalog.{Flag, Index, lookup, insert, index_from, new_application, by_path}

pub lookup-insert :
    (k j : Text) (v : Flag) (m : Index)
    → lookup j (insert k v m) ≡ (if text_eq k j then some v else lookup j m)
unfolding lookup insert
lookup-insert k j v [] = refl
lookup-insert k j v ((i, w) ∷ m) =
    ground (arith, text_eq_iff k j, text_eq_iff i k, text_eq_iff i j, lookup-insert k j v m)

-- The last toggle of a list that stands at a path, or `found` if there is none.
abbrev pub last_at : Text → Option Flag → List Flag → Option Flag
last_at k found [] = found
last_at k found (t ∷ ts) = last_at k (if text_eq t.path.value k then some t else found) ts

lookup-index_from :
    (k : Text) (m : Index) (ts : List Flag) → lookup k (index_from m ts) ≡ last_at k (lookup k m) ts
unfolding index_from
lookup-index_from k m [] = refl
lookup-index_from k m (t ∷ ts) =
    lookup-index_from k (insert t.path.value t m) ts ∙ rw (lookup-insert t.path.value k t m)

-- Looking a path up finds the last of the fetched toggles that stands at exactly this path.
pub by_path-new_application :
    (ts : List Flag) (p : FlagPath) → by_path (new_application ts) p ≡ last_at p.value none ts
unfolding by_path new_application lookup
by_path-new_application ts p = lookup-index_from p.value [] ts

last_at_of_none :
    (k : Text) (found : Option Flag) (ts : List Flag) (t : Flag)
    → last_at k found ts ≡ some t
    → (found ≡ some t) ⊎ (In t ts × (t.path.value ≡ k))
last_at_of_none k found [] t h = inl h
last_at_of_none k found (u ∷ ts) t h = ground (
  arith,
  text_eq_iff u.path.value k,
  last_at_of_none k (if text_eq u.path.value k then some u else found) ts t h,
)

-- A toggle that is found was fetched, and stands at the path that was asked for.
pub by_path_sound :
    (ts : List Flag) (p : FlagPath) (t : Flag)
    → by_path (new_application ts) p ≡ some t
    → In t ts × (t.path.value ≡ p.value)
by_path_sound ts p t h =
    ground (arith, by_path-new_application ts p, last_at_of_none p.value none ts t)
