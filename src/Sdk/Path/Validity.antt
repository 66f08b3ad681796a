-- ===== src/Sdk/Path/Validity.antt =====
-- Which texts `new_path` accepts.
use to_toggle.Prelude.{
  ◌≡◌, refl, false, List, [], ◌∷◌, ◌++◌, Text, is_empty, split, any, In, split-append, arith,
}
use to_toggle.Sdk.Path.{dot, FlagPath, valid, new_path, ancestor_paths, segments}
use to_toggle.Sdk.Path.Ancestors.{ancestor_paths_prefix}

any_append_left : (xs ys : List Text) → any is_empty (xs ++ ys) ≡ false → any is_empty xs ≡ false
any_append_left [] ys h = refl
any_append_left (x ∷ xs) ys h = ground (arith, any_append_left xs ys)

-- What an accepted path is: the text itself, with no empty segment.
pub new_path-valid :
    (raw : Text) (p : FlagPath)
    → new_path raw ≡ valid p
    → (p.value ≡ raw) × (any is_empty (segments p) ≡ false)
unfolding new_path segments
new_path-valid raw p h = ground arith

pub new_path_of_segments :
    (s : Text) → any is_empty (split dot s) ≡ false → new_path s ≡ valid (record { value = s })
unfolding new_path split
new_path_of_segments [] h = cc
new_path_of_segments (c ∷ s) h = ground arith

-- Every ancestor of a path that NewPath accepts is itself a path that NewPath accepts.
pub ancestor_paths-new_path :
    (raw : Text) (p q : FlagPath)
    → new_path raw ≡ valid p
    → In q (ancestor_paths p)
    → new_path q.value ≡ valid q
unfolding segments
ancestor_paths-new_path raw p q h m =
    let (r, e) = ancestor_paths_prefix p q m in
    let parts = new_path-valid raw p h in
    new_path_of_segments q.value (
      any_append_left (split dot q.value) (split dot r)
        (rw (← split-append dot q.value r, ← e) parts.1))
