-- ===== src/Server/Toggles/Archive/Depth.antt =====
-- Delete of server/internal/app/infrastructure/database/toggle_repository.go ends, and takes exactly
-- the live toggles below the one that it is called for.
use to_toggle.Prelude.{ℕ, ◌+◌, ◌≤◌, ◌<◌, ◌≡◌, Bool, true, List, In}
use to_toggle.Server.Db.{Table, Lawful}
use to_toggle.Server.Toggles.Archive.{Stored, is_live, is_child_of}
use to_toggle.Server.Toggles.Archive.Below.{Below, marked}

-- The levels of live rows lie below a bound, and a live row stands one level below the row that it
-- points to.
abbrev pub Stepped : ℕ → List Stored → Type 0
Stepped bound rows =
    ((x : Stored) → In x rows → is_live x ≡ true → x.toggle.level < bound)
    × ((x c : Stored)
        → In x rows
        → In c rows
        → is_live c ≡ true
        → is_child_of x.toggle.id c ≡ true
        → c.toggle.level ≡ x.toggle.level + 1)

module _ {S : Type 0} (t : Table S Stored) (law : Lawful (λ x. x.toggle.id) t) (now : ℕ) (bound : ℕ)
    (rows : List Stored) (stepped : Stepped bound rows) where
  -- Some of the rows have been deleted since.
  abbrev Since : S → Type 0
  Since s = (d : Stored → Bool) × (t.rows s ≡ marked now d rows)

  abbrev IsFrom : ℕ → Stored → Type 0
  IsFrom n c = In c rows × (is_live c ≡ true) × (n ≤ c.toggle.level)
