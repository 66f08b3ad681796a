-- ===== src/Server/Toggles/Archive/Deletion.antt =====
-- Delete of server/internal/app/infrastructure/database/toggle_repository.go takes the live toggles
-- below a toggle, and no other.
use to_toggle.Prelude.{
  ℕ, zero, suc, ◌≡◌, refl, sym, ap, ◌∙◌, subst, ◌⊎◌, inl, inr, ◌↔◌, Bool, true, false, ◌&&◌, ◌||◌,
  &&_iff, none, some, List, [], ◌∷◌, Text, text_eq_iff, In, select,
}
use to_toggle.Server.Db.{Answer, ok, err, Table, Lawful}
use to_toggle.Server.Db.Rows.{In-select}
use to_toggle.Server.Toggles.Archive.{
  Stored, is_live, has_id, is_child_of, Walk, after_walk, ended, for_each, for_found, get_children,
  soft_delete, delete_below,
}
use to_toggle.Server.Toggles.Archive.Below.{
  deleted_row, marked, Below, itself, under, Marks, Below-trans, Below-marked, Below-spared,
  marked-marked, either_Marks, Marks-iff,
}

pub after_walk_ok :
    {S : Type 0} (x : Walk S) (f : S → Walk S)
    → (after_walk x f).1 ≡ some (ok tt)
    → (x.1 ≡ some (ok tt)) × (after_walk x f ≡ f x.0)
after_walk_ok (s, none) f h = cc
after_walk_ok (s, some (ok u)) f h = (refl, refl)
after_walk_ok (s, some (err e)) f h = cc

pub for_found_ok :
    {S : Type 0} (f : Stored → S → Walk S) (q : S × Answer (List Stored))
    → (for_found f q).1 ≡ some (ok tt)
    → (l : List Stored) × (q.1 ≡ ok l) × (for_found f q ≡ for_each f l q.0)
unfolding for_found
for_found_ok f (s, ok l) h = (l, refl, refl)
for_found_ok f (s, err e) h = cc

ended_ok : {S : Type 0} (x : S × Answer Unit) → (ended x).1 ≡ some (ok tt) → x.1 ≡ ok tt
ended_ok (s, ok u) h = refl
ended_ok (s, err e) h = cc

pub none_deleted : (now : ℕ) (rows : List Stored) → rows ≡ marked now (λ x. false) rows
none_deleted now [] = refl
none_deleted now (x ∷ rows) = ap (λ l. x ∷ l) (none_deleted now rows)

-- The row is one of these, or below one.
abbrev BelowOne : List Stored → List Stored → Stored → Type 0
BelowOne rows cs x = (c : Stored) × In c cs × Below rows c.toggle.id x

Below-child :
    (rows : List Stored) (i : Text) (x : Stored)
    → Below rows i x
    → BelowOne rows (select (λ c. is_live c && is_child_of i c) rows) x ⊎ (x.toggle.id ≡ i)
Below-child rows i x (itself e) = inr e
Below-child rows i x (under c m l h b) = inl (
  c,
  (In-select (λ z. is_live z && is_child_of i z) rows c).1
      (m, (&&_iff (is_live c) (is_child_of i c)).1 (l, h)),
  b,
)

-- Below a row is the row itself, and what is below one of its live children.
Below-cases :
    (rows : List Stored) (i : Text) (x : Stored)
    → (BelowOne rows (select (λ c. is_live c && is_child_of i c) rows) x ⊎ (x.toggle.id ≡ i))
      ↔ Below rows i x
Below-cases rows i x = (
  (λ o. elim o [
    | inl (c, m, b) ↦
        let (n, k) = (In-select (λ z. is_live z && is_child_of i z) rows c).0 m in
        let (live, child) = (&&_iff (is_live c) (is_child_of i c)).0 k in under c n live child b
    | inr e ↦ itself e
  ]),
  Below-child rows i x,
)

module _ {S : Type 0} (t : Table S Stored) (law : Lawful (λ x. x.toggle.id) t) (now : ℕ) where
  -- From some rows to others, the live ones with a property are deleted and no other row changes.
  abbrev pub Deletes : List Stored → List Stored → (Stored → Type 0) → Type 0
  Deletes rows rows' P = (d : Stored → Bool) × (rows' ≡ marked now d rows) × Marks rows d P

  Deletes-then :
      (a b c : List Stored) (P R : Stored → Type 0) (Q : List Stored → Stored → Type 0)
      → Deletes a b P
      → Deletes b c (Q b)
      → ((d : Stored → Bool)
          → Marks a d P
          → (x : Stored) → In x a
          → is_live x ≡ true
          → d x ≡ false
          → Q (marked now d a) x ↔ R x)
      → Deletes a c (λ x. P x ⊎ R x)
  Deletes-then a b c P R Q (d, e, m) (d', e', m') same =
      let n = subst (λ l. Marks l d' (Q l)) e m' in
      (
        (λ x. d x || d' x),
        e' ∙ ap (marked now d') e ∙ marked-marked now d d' a (Q (marked now d a)) n,
        either_Marks now d d' a P (Q (marked now d a)) R m n (same d m),
      )

  Deletes-iff :
      (a b : List Stored) (P Q : Stored → Type 0)
      → ((x : Stored) → In x a → P x ↔ Q x)
      → Deletes a b P
      → Deletes a b Q
  Deletes-iff a b P Q same (d, e, m) = (d, e, Marks-iff a d P Q same m)

  for_each-Deletes :
      (rounds : ℕ)
      → ((i : Text) (s : S)
          → (delete_below t now rounds i s).1 ≡ some (ok tt)
          → Deletes (t.rows s) (t.rows (delete_below t now rounds i s).0) (Below (t.rows s) i))
      → (cs : List Stored) (s : S)
      → (for_each (λ c. delete_below t now rounds c.toggle.id) cs s).1 ≡ some (ok tt)
      → Deletes
          (t.rows s)
          (t.rows (for_each (λ c. delete_below t now rounds c.toggle.id) cs s).0)
          (BelowOne (t.rows s) cs)
  unfolding for_each
  for_each-Deletes rounds step [] s h = (
    (λ x. false),
    none_deleted now (t.rows s),
    (λ x m. ((λ k. cc), (λ (l, (c, n, b)). elim n [ ]))),
  )
  for_each-Deletes rounds step (c ∷ cs) s h =
      let f : Stored → S → Walk S = (λ z. delete_below t now rounds z.toggle.id) in
      let (k, e) = after_walk_ok (f c s) (for_each f cs) h in
      let first = step c.toggle.id s k in
      let rest = for_each-Deletes rounds step cs (f c s).0 (ap (λ z. z.1) (sym e) ∙ h) in
      let both =
        Deletes-then (t.rows s) (t.rows (f c s).0) (t.rows (for_each f cs (f c s).0).0)
          (Below (t.rows s) c.toggle.id) (BelowOne (t.rows s) cs) (λ l. BelowOne l cs) first rest
          (λ d marks x m l spared. (
            (λ (z, n, b). (z, n, Below-marked now d (t.rows s) z.toggle.id x b)),
            (λ (z, n, b). (
              z,
              n,
              Below-spared now d (t.rows s) (Below (t.rows s) c.toggle.id) marks
                  (Below-trans (t.rows s) c.toggle.id) z.toggle.id x b m l spared,
            )),
          )) in
      subst (λ z. Deletes (t.rows s) (t.rows z.0) (BelowOne (t.rows s) (c ∷ cs))) (sym e)
        (Deletes-iff (t.rows s) (t.rows (for_each f cs (f c s).0).0) _ _
          (λ x m. (
            (λ o. elim o [ inl b ↦ (c, inl refl, b) | inr (z, n, b) ↦ (z, inr n, b) ]),
            (λ (z, n, b). elim n [
              | inl q ↦ inl (subst (λ w. Below (t.rows s) w.toggle.id x) q b)
              | inr i ↦ inr (z, i, b)
            ]),
          ))
          both)

  own_row :
      (i : Text) (rows : List Stored)
      → Marks rows (λ x. is_live x && has_id i x) (λ x. x.toggle.id ≡ i)
  own_row i rows x m = (
    (λ h.
        let (l, e) = (&&_iff (is_live x) (has_id i x)).0 h in (l, (text_eq_iff x.toggle.id i).0 e)),
    (λ (l, e). (&&_iff (is_live x) (has_id i x)).1 (l, (text_eq_iff x.toggle.id i).1 e)),
  )

  -- When the repository's Delete of an id succeeds, the live rows at the id or below it are deleted
  -- at the time of the call, and every other row is as it was. The table is lawful.
  pub delete_below-Deletes :
      (rounds : ℕ) (i : Text) (s : S)
      → (delete_below t now rounds i s).1 ≡ some (ok tt)
      → Deletes (t.rows s) (t.rows (delete_below t now rounds i s).0) (Below (t.rows s) i)
  unfolding delete_below
  delete_below-Deletes zero i s h = cc
  delete_below-Deletes (suc n) i s h =
      let f : Stored → S → Walk S = (λ x. delete_below t now n x.toggle.id) in
      let loop = for_found f (get_children t i s) in
      let (k, e) = after_walk_ok loop (λ s'. ended (soft_delete t now i s')) h in
      let (cs, found, g) = for_found_ok f (get_children t i s) k in
      let p : Stored → Bool = (λ x. is_live x && is_child_of i x) in
      let children = law.find_ok p s cs found in
      let kept = law.find_keeps p s in
      let walked =
        for_each-Deletes n (delete_below-Deletes n) cs (get_children t i s).0
          (ap (λ z. z.1) (sym g) ∙ k) in
      let last =
        law.update_ok (λ x. is_live x && has_id i x) (deleted_row now) loop.0
          (ended_ok (soft_delete t now i loop.0) (ap (λ z. z.1) (sym e) ∙ h)) in
      let final = soft_delete t now i loop.0 in
      let q = get_children t i s in
      let children_gone =
        subst (λ l. Deletes (t.rows s) l (BelowOne (t.rows s) (select p (t.rows s))))
          (sym (ap (λ z. t.rows z.0) g))
          (subst (λ l. Deletes (t.rows s) (t.rows (for_each f cs q.0).0) (BelowOne (t.rows s) l))
            children
            (subst (λ l. Deletes l (t.rows (for_each f cs q.0).0) (BelowOne l cs)) kept walked)) in
      let both =
        Deletes-then (t.rows s) (t.rows loop.0) (t.rows final.0)
          (BelowOne (t.rows s) (select p (t.rows s))) (λ x. x.toggle.id ≡ i)
          (λ l x. x.toggle.id ≡ i) children_gone
          ((λ x. is_live x && has_id i x), last, own_row i (t.rows loop.0))
          (λ d marks x m l spared. ((λ c. c), (λ c. c))) in
      subst (λ z. Deletes (t.rows s) (t.rows z.0) (Below (t.rows s) i)) (sym e)
        (Deletes-iff (t.rows s) (t.rows final.0) _ _ (λ x m. Below-cases (t.rows s) i x) both)
