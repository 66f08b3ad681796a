-- ===== src/Server/Toggles/Ancestors.antt =====
-- The toggles that CreateToggle makes on the server are the ones that the client library consults:
-- Path.AncestorPaths of totoggle_go/internal/toggle/path.go.
use to_toggle.Prelude.{
  ℕ, zero, suc, ◌-◌, ◌≤◌, ◌≡◌, refl, sym, ap, subst, Bool, List, [], ◌∷◌, ◌++◌, Text, split, join,
  length, take, All, arith,
}
use to_toggle.Sdk.Path.{FlagPath, append_ancestors, ancestor_paths}
use to_toggle.Server.Db.{ok, Table, Lawful}
use to_toggle.Server.Db.Rows.{++_assoc}
use to_toggle.Server.Approval.Workflow.{Named}
use to_toggle.Server.Toggles.{Toggle, create_toggle}
use to_toggle.Server.Toggles.Creation.{
  StandsAt, Grows, AddsEnabled, level_paths, create_toggle-StandsAt,
}

take-before :
    (before : List Text) (part : Text) (rest : List Text)
    → take (suc (length before)) (before ++ (part ∷ rest)) ≡ before ++ (part ∷ [])
take-before [] part rest = refl
take-before (x ∷ xs) part rest = ap (λ l. x ∷ l) (take-before xs part rest)

length-end :
    (before : List Text) (part : Text) → length (before ++ (part ∷ [])) ≡ suc (length before)
length-end [] part = refl
length-end (x ∷ xs) part = ap suc (length-end xs part)

no_rounds : (n : ℕ) → suc n ≤ 0 → ⊥
no_rounds n b = omega arith

append_ancestors-level_paths :
    (P : Text → Type 0) (rounds : ℕ) (before rest : List Text)
    → rounds ≤ length rest
    → All P (level_paths before rest)
    → All (λ q. P q.value) (append_ancestors rounds (suc (length before)) (before ++ rest))
unfolding append_ancestors
append_ancestors-level_paths P zero before rest b h = tt
append_ancestors-level_paths P (suc n) before [] b h = elim (no_rounds n b) [ ]
append_ancestors-level_paths P (suc n) before (part ∷ rest) b (p, h) =
    let later = append_ancestors-level_paths P n (before ++ (part ∷ [])) rest (omega arith) h in
    (
      subst P (ap (join 46) (sym (take-before before part rest))) p,
      subst (λ l. All (λ q. P q.value) (append_ancestors n (suc (suc (length before))) l))
          (++_assoc before (part ∷ []) rest)
          (subst
            (λ i.
              All (λ q. P q.value) (append_ancestors n (suc i) ((before ++ (part ∷ [])) ++ rest)))
            (length-end before part) later),
    )

module _ {S : Type 0} (t : Table S Toggle) (law : Lawful (λ x. x.id) t) where
  -- When CreateToggle succeeds, a toggle of the application stands at every path that the client
  -- library looks up above this one, no toggle that was there is lost, and every toggle that is new
  -- is stored enabled, also one that was to be created disabled. The table is lawful, and reading
  -- the applications leaves the toggles.
  pub create_toggle-ancestor_paths :
      (applications : Table S Named) (ulids : ℕ → Text) (p : FlagPath) (enabled : Bool)
      (app_id : Text) (s : S)
      → ((q : Named → Bool) (s' : S) → t.rows (applications.find q s').0 ≡ t.rows s')
      → (create_toggle t applications ulids p.value enabled app_id s).1 ≡ ok tt
      → let rows' = t.rows (create_toggle t applications ulids p.value enabled app_id s).0 in
        All (λ q. StandsAt app_id rows' q.value) (ancestor_paths p)
        × Grows (t.rows s) rows'
        × AddsEnabled (t.rows s) rows'
  unfolding ancestor_paths
  create_toggle-ancestor_paths applications ulids p enabled app_id s apart h =
      let (all, grows, enabled_ones) =
        create_toggle-StandsAt t law applications ulids p.value enabled app_id s apart h in
      (
        append_ancestors-level_paths
            (StandsAt app_id
              (t.rows (create_toggle t applications ulids p.value enabled app_id s).0))
            (length (split 46 p.value) - 1) [] (split 46 p.value) (omega arith) all,
        grows,
        enabled_ones,
      )
