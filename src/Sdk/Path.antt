-- ===== src/Sdk/Path.antt =====
-- totoggle_go/internal/toggle/path.go: validated, dot-separated toggle paths. `Path` is the text
-- that it wraps; only `new_path` makes one from outside.
pub mod Ancestors
pub mod Validity
use to_toggle.Prelude.{
  ℕ, zero, suc, ◌-◌, ◌≡◌, Bool, true, false, List, [], ◌∷◌, Text, is_empty, split, join, length,
  take, any, if◌then◌else◌,
}

-- `.`
abbrev pub dot : ℕ
dot = 46

pub data PathError : Type 0 where
  empty_path empty_segment : PathError

pub record FlagPath : Type 0 where
  pub value : Text

pub data NewPath : Type 0 where
  valid : FlagPath → NewPath
  invalid : PathError → NewPath

-- NewPath
unfoldable pub new_path : Text → NewPath
new_path raw =
    if is_empty raw
    then invalid empty_path
    else if any is_empty (split dot raw)
    then invalid empty_segment
    else valid (record { value = raw })

-- Path.Segments
unfoldable pub segments : FlagPath → List Text
segments p = split dot p.value

-- The loop of AncestorPaths: `rounds` rounds, from index `i`.
unfoldable pub append_ancestors : ℕ → ℕ → List Text → List FlagPath
append_ancestors zero i segs = []
append_ancestors (suc rounds) i segs =
    record { value = join dot (take i segs) } ∷ append_ancestors rounds (suc i) segs

-- Path.AncestorPaths
unfoldable pub ancestor_paths : FlagPath → List FlagPath
unfolding segments append_ancestors
ancestor_paths p = let segs = segments p in append_ancestors (length segs - 1) 1 segs
