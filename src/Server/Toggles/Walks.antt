-- ===== src/Server/Toggles/Walks.antt =====
-- The walks upwards of isToggleEnabled and AncestorBlocker in
-- server/internal/app/usecase/toggle_usecase.go: they end, and they agree.
use mathlib.Core.Option.{some-injective}
use mathlib.Core.List.{reverse, reverse-cons}
use to_toggle.Prelude.{
  ℕ, zero, suc, ◌<◌, ◌≡◌, refl, sym, ap, ◌∙◌, subst, Bool, true, false, ◌&&◌, Option, none, some,
  List, [], ◌∷◌, ◌++◌, Text, text_eq, text_eq_iff, text_eq_refl, In, all, length, arith, Bool-cases,
  inl, inr,
}
use to_toggle.Server.Db.{ok, if_found-cases, if_found-ok, Table, Lawful, Distinct}
use to_toggle.Server.Db.Rows.{Distinct-In}
use to_toggle.Server.Db.Reads.{find_first_ok, find_first_keeps, find_first_unique}
use to_toggle.Server.Toggles.{Toggle}
use to_toggle.Server.Toggles.Status.{
  get_by_id, is_toggle_enabled, prepend, ancestors_above, with_chain, first_off, ancestor_blocker,
}
use to_toggle.Server.Toggles.Levels.{Levelled, Above, Levelled-Above}

abbrev pub IsSome : {A : Type 0} → Option A → Type 0
IsSome {A = A} o = (a : A) × (o ≡ some a)

not_below_zero : (n : ℕ) → n < 0 → ⊥
not_below_zero n l = omega arith

prepend-some :
    {S : Type 0} (p : Toggle) (x : S × Option (List Toggle)) (l : List Toggle)
    → x.1 ≡ some l
    → (prepend p x).1 ≡ some (p ∷ l)
prepend-some p (s, some l) m h = ap (λ z. some (p ∷ z)) (some-injective l m h)
prepend-some p (s, none) m h = cc

with_chain-some :
    {S : Type 0} (x : S × Option (List Toggle)) (f : List Toggle → Bool × Text) (l : List Toggle)
    → x.1 ≡ some l
    → (with_chain x f).1 ≡ some (f l)
with_chain-some (s, some l) f m h = ap (λ z. some (f z)) (some-injective l m h)
with_chain-some (s, none) f m h = cc

first_off-all : (l : List Toggle) → (first_off l).0 ≡ all (λ y. y.enabled) l
unfolding first_off
first_off-all [] = refl
first_off-all (a ∷ l) = ground (arith, first_off-all l)

all-++ :
    (xs ys : List Toggle)
    → all (λ y. y.enabled) (xs ++ ys) ≡ (all (λ y. y.enabled) xs && all (λ y. y.enabled) ys)
all-++ [] ys = refl
all-++ (x ∷ xs) ys = ground (arith, all-++ xs ys)

all-reverse : (l : List Toggle) → all (λ y. y.enabled) (reverse l) ≡ all (λ y. y.enabled) l
all-reverse [] = refl
all-reverse (a ∷ l) =
    ap (all (λ y. y.enabled)) (reverse-cons a l)
    ∙ (all-++ (reverse l) (a ∷ []) ∙ ground (arith, all-reverse l))

module _ {S : Type 0} (t : Table S Toggle) (law : Lawful (λ x. x.id) t) where
  -- The row that is read for a parent is the parent of the chain.
  parent_read :
      (rows : List Toggle) (p q : Toggle) (s : S)
      → Distinct (λ y. y.id) rows
      → t.rows s ≡ rows
      → In p rows
      → (get_by_id t p.id s).1 ≡ ok q
      → q ≡ p
  parent_read rows p q s d e m h =
      let (n, c) = find_first_ok (λ y. y.id) t law (λ y. text_eq y.id p.id) s q h in
      Distinct-In (λ y. y.id) rows q p d (subst (In q) e n) m ((text_eq_iff q.id p.id).0 c)

  is_toggle_enabled-IsSome :
      (rows : List Toggle) (chain : List Toggle) (rounds : ℕ) (x : Toggle) (s : S)
      → Distinct (λ y. y.id) rows
      → t.rows s ≡ rows
      → Above rows x chain
      → length chain < rounds
      → IsSome (is_toggle_enabled t rounds x s).1
  unfolding is_toggle_enabled
  is_toggle_enabled-IsSome rows chain zero x s d e a l = elim (not_below_zero (length chain) l) [ ]
  is_toggle_enabled-IsSome rows [] (suc n) x s d e a l = elim (Bool-cases x.enabled) [
    | inl on ↦ rw (on, a) (true, refl)
    | inr off ↦ rw off (false, refl)
  ]
  is_toggle_enabled-IsSome rows (p ∷ ps) (suc n) x s d e (q, m, a) l = elim (Bool-cases x.enabled) [
    | inr off ↦ rw off (false, refl)
    | inl on ↦
        let kept = find_first_keeps (λ y. y.id) t law (λ y. text_eq y.id p.id) s in
        rw (on, q)
          (elim (if_found-cases (get_by_id t p.id s) (is_toggle_enabled t n)
            (λ s'. (s', some false))) [
              | inl (r, f, g) ↦
                  let same = parent_read rows p r s d e m f in
                  let (b, w) =
                    is_toggle_enabled-IsSome rows ps n p (get_by_id t p.id s).0 d (kept ∙ e) a
                      (omega arith) in
                  (
                    b,
                    ap (λ z. z.1) g
                        ∙ (ap (λ z. (is_toggle_enabled t n z (get_by_id t p.id s).0).1) same ∙ w),
                  )
              | inr g ↦ (false, ap (λ z. z.1) g)
            ])
  ]

  ancestors_above-IsSome :
      (rows : List Toggle) (chain : List Toggle) (rounds : ℕ) (x : Toggle) (s : S)
      → Distinct (λ y. y.id) rows
      → t.rows s ≡ rows
      → Above rows x chain
      → length chain < rounds
      → IsSome (ancestors_above t rounds x s).1
  unfolding ancestors_above
  ancestors_above-IsSome rows chain zero x s d e a l = elim (not_below_zero (length chain) l) [ ]
  ancestors_above-IsSome rows [] (suc n) x s d e a l = rw a ([], refl)
  ancestors_above-IsSome rows (p ∷ ps) (suc n) x s d e (q, m, a) l =
      let kept = find_first_keeps (λ y. y.id) t law (λ y. text_eq y.id p.id) s in
      let up : Toggle → S → S × Option (List Toggle) =
        (λ r s'. prepend r (ancestors_above t n r s')) in
      rw q (elim (if_found-cases (get_by_id t p.id s) up (λ s'. (s', some []))) [
        | inl (r, f, g) ↦
            let same = parent_read rows p r s d e m f in
            let (b, w) =
              ancestors_above-IsSome rows ps n p (get_by_id t p.id s).0 d (kept ∙ e) a
                (omega arith) in
            (
              p ∷ b,
              ap (λ z. z.1) g
                  ∙ (ap (λ z. (up z (get_by_id t p.id s).0).1) same
                      ∙ prepend-some p (ancestors_above t n p (get_by_id t p.id s).0) b w),
            )
        | inr g ↦ ([], ap (λ z. z.1) g)
      ])

  -- Whatever the reads answer, the walks of isToggleEnabled and AncestorBlocker from a stored toggle
  -- end within one round more than the toggle's level. The table is lawful, and its toggles stand
  -- one level below the ones that they point to.
  pub is_toggle_enabled_ends :
      (x : Toggle) (s : S)
      → Levelled (t.rows s)
      → In x (t.rows s)
      → (rounds : ℕ) → x.level < rounds
      → IsSome (is_toggle_enabled t rounds x s).1 × IsSome (ancestor_blocker t rounds x s).1
  unfolding ancestor_blocker
  is_toggle_enabled_ends x s (d, h) m rounds l =
      let (chain, a, b) = Levelled-Above (t.rows s) h x.level x m refl in
      let (c, w) = ancestors_above-IsSome (t.rows s) chain rounds x s d refl a (omega arith) in
      (
        is_toggle_enabled-IsSome (t.rows s) chain rounds x s d refl a (omega arith),
        (
          first_off (reverse c),
          with_chain-some (ancestors_above t rounds x s) (λ l. first_off (reverse l)) c w,
        ),
      )

  -- With reads that do not fail, the chain is what the database holds.
  parent_found :
      (rows : List Toggle) (p : Toggle) (s : S)
      → ((q : Toggle → Bool) (s' : S) → (l : List Toggle) × ((t.find q s').1 ≡ ok l))
      → Distinct (λ y. y.id) rows
      → t.rows s ≡ rows
      → In p rows
      → (get_by_id t p.id s).1 ≡ ok p
  parent_found rows p s reads d e m =
      let q : Toggle → Bool = (λ y. text_eq y.id p.id) in
      let (l, found) = reads q s in
      find_first_unique (λ y. y.id) t law (λ y. y.id) q s l p
        (λ a b c f. (text_eq_iff a.id p.id).0 c ∙ sym ((text_eq_iff b.id p.id).0 f))
        (subst (Distinct (λ y. y.id)) (sym e) d) found (subst (In p) (sym e) m) (text_eq_refl p.id)

  is_toggle_enabled-all :
      (rows : List Toggle) (chain : List Toggle) (rounds : ℕ) (x : Toggle) (s : S)
      → ((q : Toggle → Bool) (s' : S) → (l : List Toggle) × ((t.find q s').1 ≡ ok l))
      → Distinct (λ y. y.id) rows
      → t.rows s ≡ rows
      → Above rows x chain
      → length chain < rounds
      → (is_toggle_enabled t rounds x s).1 ≡ some (x.enabled && all (λ y. y.enabled) chain)
  unfolding is_toggle_enabled
  is_toggle_enabled-all rows chain zero x s reads d e a l =
      elim (not_below_zero (length chain) l) [ ]
  is_toggle_enabled-all rows [] (suc n) x s reads d e a l = elim (Bool-cases x.enabled) [
    | inl on ↦ rw (on, a) refl
    | inr off ↦ rw off refl
  ]
  is_toggle_enabled-all rows (p ∷ ps) (suc n) x s reads d e (q, m, a) l =
      elim (Bool-cases x.enabled) [
        | inr off ↦ rw off refl
        | inl on ↦
            let kept = find_first_keeps (λ y. y.id) t law (λ y. text_eq y.id p.id) s in
            let g =
              if_found-ok (get_by_id t p.id s) (is_toggle_enabled t n) (λ s'. (s', some false)) p
                (parent_found rows p s reads d e m) in
            rw (on, q)
              (ap (λ z. z.1) g
                ∙ is_toggle_enabled-all rows ps n p (get_by_id t p.id s).0 reads d (kept ∙ e) a
                    (omega arith))
      ]

  ancestors_above-all :
      (rows : List Toggle) (chain : List Toggle) (rounds : ℕ) (x : Toggle) (s : S)
      → ((q : Toggle → Bool) (s' : S) → (l : List Toggle) × ((t.find q s').1 ≡ ok l))
      → Distinct (λ y. y.id) rows
      → t.rows s ≡ rows
      → Above rows x chain
      → length chain < rounds
      → (ancestors_above t rounds x s).1 ≡ some chain
  unfolding ancestors_above
  ancestors_above-all rows chain zero x s reads d e a l = elim (not_below_zero (length chain) l) [ ]
  ancestors_above-all rows [] (suc n) x s reads d e a l = rw a refl
  ancestors_above-all rows (p ∷ ps) (suc n) x s reads d e (q, m, a) l =
      let kept = find_first_keeps (λ y. y.id) t law (λ y. text_eq y.id p.id) s in
      let up : Toggle → S → S × Option (List Toggle) =
        (λ r s'. prepend r (ancestors_above t n r s')) in
      let g =
        if_found-ok (get_by_id t p.id s) up (λ s'. (s', some [])) p
          (parent_found rows p s reads d e m) in
      rw q (
        ap (λ z. z.1) g
        ∙ prepend-some p (ancestors_above t n p (get_by_id t p.id s).0) ps (
            ancestors_above-all rows ps n p (get_by_id t p.id s).0 reads d (kept ∙ e) a
              (omega arith)))

  -- Where reads do not fail, the table is lawful and toggles stand one level below the ones that
  -- they point to, isToggleEnabled answers, for a stored toggle, whether the toggle is on and
  -- AncestorBlocker finds nothing off above it.
  pub is_toggle_enabled-ancestor_blocker :
      (x : Toggle) (s s' : S)
      → ((q : Toggle → Bool) (s1 : S) → (l : List Toggle) × ((t.find q s1).1 ≡ ok l))
      → Levelled (t.rows s)
      → t.rows s' ≡ t.rows s
      → In x (t.rows s)
      → (rounds : ℕ) → x.level < rounds
      → (free : Bool) × (name : Text) × ((ancestor_blocker t rounds x s').1 ≡ some (free, name))
        × ((is_toggle_enabled t rounds x s).1 ≡ some (x.enabled && free))
  unfolding ancestor_blocker
  is_toggle_enabled-ancestor_blocker x s s' reads (d, h) same m rounds l =
      let (chain, a, b) = Levelled-Above (t.rows s) h x.level x m refl in
      let w = ancestors_above-all (t.rows s) chain rounds x s' reads d same a (omega arith) in
      let e = is_toggle_enabled-all (t.rows s) chain rounds x s reads d refl a (omega arith) in
      (
        (first_off (reverse chain)).0,
        (first_off (reverse chain)).1,
        with_chain-some (ancestors_above t rounds x s') (λ l. first_off (reverse l)) chain w,
        e
            ∙ ap (λ z. some (x.enabled && z))
                (sym (first_off-all (reverse chain) ∙ all-reverse chain)),
      )
