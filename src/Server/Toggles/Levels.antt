-- ===== src/Server/Toggles/Levels.antt =====
-- The levels of the toggles: each toggle stands one level below the toggle that it points to.
use to_toggle.Prelude.{
  ℕ, zero, suc, ◌+◌, ◌≤◌, ◌≡◌, ◌≢◌, sym, ap, ◌∙◌, subst, Option, none, some, List, [], ◌∷◌, Text,
  In, All, All-In, length, split, arith, Option-cases, inl, inr,
}
use to_toggle.Server.Db.{Distinct}
use to_toggle.Server.Toggles.{Toggle}

-- A toggle of the rows that has the id and stands one level above.
abbrev pub HasParent : List Toggle → Option Text → ℕ → Type 0
HasParent rows none level = Unit
HasParent rows (some i) level = (p : Toggle) × In p rows × (p.id ≡ i) × (p.level + 1 ≡ level)

-- A toggle's level is that of its path, and it has its parent.
abbrev pub Placed : List Toggle → Toggle → Type 0
Placed rows x = (x.level + 1 ≡ length (split 46 x.path)) × HasParent rows x.parent_id x.level

abbrev pub Levelled : List Toggle → Type 0
Levelled rows = Distinct (λ x. x.id) rows × All (Placed rows) rows

-- The toggles above, the nearest first.
abbrev pub Above : List Toggle → Toggle → List Toggle → Type 0
Above rows x [] = x.parent_id ≡ none
Above rows x (p ∷ ps) = (x.parent_id ≡ some p.id) × In p rows × Above rows p ps

parent_of :
    (rows : List Toggle) (x : Toggle)
    → All (Placed rows) rows
    → In x rows
    → HasParent rows x.parent_id x.level
parent_of rows x h m = (All-In (Placed rows) x rows h m).1

no_level : (n : ℕ) → n + 1 ≢ 0
no_level n e = omega arith

-- Every toggle has its chain of toggles above, no longer than its level.
pub Levelled-Above :
    (rows : List Toggle)
    → All (Placed rows) rows
    → (n : ℕ) (x : Toggle) → In x rows
    → x.level ≡ n
    → (chain : List Toggle) × Above rows x chain × (length chain ≤ n)
Levelled-Above rows h zero x m e = elim (Option-cases x.parent_id) [
  | inl q ↦ ([], q, omega arith)
  | inr (i, q) ↦
      let (p, k, same, l) = subst (λ o. HasParent rows o x.level) q (parent_of rows x h m) in
      elim (no_level p.level (l ∙ e)) [ ]
]
Levelled-Above rows h (suc n) x m e = elim (Option-cases x.parent_id) [
  | inl q ↦ ([], q, omega arith)
  | inr (i, q) ↦
      let (p, k, same, l) = subst (λ o. HasParent rows o x.level) q (parent_of rows x h m) in
      let below : p.level ≡ n = ground (arith, l, e) in
      let (chain, a, b) = Levelled-Above rows h n p k below in
      (p ∷ chain, (q ∙ ap some (sym same), k, a), omega arith)
]
