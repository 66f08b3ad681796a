-- ===== src/Server/Audit/Newest.antt =====
-- Lists in a strict order, and the pages that are cut from them.
use to_toggle.Prelude.{
  ℕ, zero, suc, ◌<◌, ◌≡◌, refl, sym, ap, ◌∙◌, subst, inl, inr, ◌↔◌, Bool, true, false, List, [],
  ◌∷◌, ◌++◌, In, All, All-In, length, take, select, ltb, Bool-cases, arith,
}
use to_toggle.Server.Db.Keep.{All-select}
use to_toggle.Server.Db.Rows.{In-++, In-++_right}

module _ {A : Type 0} (R : A → A → Type 0) where
  abbrev pub Sorted : List A → Type 0
  Sorted [] = Unit
  Sorted (x ∷ xs) = All (R x) xs × Sorted xs

  pub Sorted-select : (p : A → Bool) (xs : List A) → Sorted xs → Sorted (select p xs)
  Sorted-select p [] h = tt
  Sorted-select p (x ∷ xs) (a, h) = elim (Bool-cases (p x)) [
    | inl e ↦ rw e (All-select (R x) p xs a, Sorted-select p xs h)
    | inr e ↦ rw e (Sorted-select p xs h)
  ]

  Sorted-++ : (pre : List A) (xs : List A) → Sorted (pre ++ xs) → Sorted xs
  Sorted-++ [] xs h = h
  Sorted-++ (y ∷ pre) xs (a, h) = Sorted-++ pre xs h

  pub Sorted-rest :
      (pre : List A) (c : A) (post : List A) → Sorted (pre ++ (c ∷ post)) → Sorted post
  Sorted-rest pre c post h = (Sorted-++ pre (c ∷ post) h).1

  In-before :
      (pre : List A) (c : A) (post : List A) (x : A) → Sorted (pre ++ (c ∷ post)) → In x pre → R x c
  In-before [] c post x h m = elim m [ ]
  In-before (y ∷ pre) c post x (a, h) (inl e) =
      subst (λ z. R z c) (sym e)
        (All-In (R y) c (pre ++ (c ∷ post)) a (In-++_right pre (c ∷ post) c (inl refl)))
  In-before (y ∷ pre) c post x (a, h) (inr m) = In-before pre c post x h m

  module _ (irrefl : (x : A) → R x x → ⊥) (trans : (x y z : A) → R x y → R y z → R x z) where
    -- The items that come after one of them.
    pub In-rest :
        (pre : List A) (c : A) (post : List A) (x : A)
        → Sorted (pre ++ (c ∷ post))
        → (In x (pre ++ (c ∷ post)) × R c x) ↔ In x post
    In-rest pre c post x h = (
      (λ (m, r). elim (In-++ pre (c ∷ post) x m) [
        | inl i ↦ elim (irrefl c (trans c x c r (In-before pre c post x h i))) [ ]
        | inr i ↦ elim i [ inl e ↦ elim (irrefl c (subst (R c) e r)) [ ] | inr k ↦ k ]
      ]),
      (λ m. (
        In-++_right pre (c ∷ post) x (inr m),
        All-In (R c) x post (Sorted-++ pre (c ∷ post) h).0 m,
      )),
    )

    smaller_tail :
        (x : A) (xs ys : List A)
        → All (R x) xs
        → ((z : A) → In z (x ∷ xs) → In z (x ∷ ys))
        → (z : A) → In z xs
        → In z ys
    smaller_tail x xs ys a f z m = elim (f z (inr m)) [
      | inl e ↦ elim (irrefl x (subst (R x) e (All-In (R x) z xs a m))) [ ]
      | inr k ↦ k
    ]

    first_same :
        (x : A) (xs : List A) (y : A) (ys : List A)
        → All (R x) xs
        → All (R y) ys
        → In x (y ∷ ys)
        → In y (x ∷ xs)
        → x ≡ y
    first_same x xs y ys a b (inl e) n = e
    first_same x xs y ys a b (inr m) (inl e) = sym e
    first_same x xs y ys a b (inr m) (inr n) =
        elim (irrefl x (trans x y x (All-In (R x) y xs a n) (All-In (R y) x ys b m))) [ ]

    -- Two lists in the order with the same items are the same list.
    pub Sorted-unique :
        (xs ys : List A)
        → Sorted xs
        → Sorted ys
        → ((z : A) → In z xs → In z ys)
        → ((z : A) → In z ys → In z xs)
        → xs ≡ ys
    Sorted-unique [] [] h k f g = refl
    Sorted-unique [] (y ∷ ys) h k f g = elim (g y (inl refl)) [ ]
    Sorted-unique (x ∷ xs) [] h k f g = elim (f x (inl refl)) [ ]
    Sorted-unique (x ∷ xs) (y ∷ ys) (a, h) (b, k) f g =
        let same : x ≡ y = first_same x xs y ys a b (f x (inl refl)) (g y (inl refl)) in
        let tails =
          Sorted-unique xs ys h k
            (smaller_tail x xs ys a (λ z m. subst (λ w. In z (w ∷ ys)) (sym same) (f z m)))
            (smaller_tail y ys xs b (λ z m. subst (λ w. In z (w ∷ xs)) same (g z m))) in
        ap (λ w. w ∷ xs) same ∙ ap (λ l. y ∷ l) tails

not_longer : (n : ℕ) → ltb (suc n) 0 ≡ true → ⊥
not_longer n h = ground arith

-- A list that is longer than a page, cut after the page.
module _ {A : Type 0} where
  pub take_all :
      (n : ℕ) (xs : List A) → ltb n (length (take (suc n) xs)) ≡ false → take (suc n) xs ≡ xs
  take_all zero [] h = refl
  take_all zero (x ∷ xs) h = cc
  take_all (suc n) [] h = refl
  take_all (suc n) (x ∷ xs) h = ap (λ l. x ∷ l) (take_all n xs (ground (arith, h)))

  pub page_cut :
      (n : ℕ) (xs : List A)
      → ltb (suc n) (length (take (suc (suc n)) xs)) ≡ true
      → (pre : List A) × (c : A) × (post : List A) × (xs ≡ pre ++ (c ∷ post))
        × (take (suc n) (take (suc (suc n)) xs) ≡ pre ++ (c ∷ []))
        × (length post < length xs)
  page_cut n [] h = elim (not_longer n h) [ ]
  page_cut zero (x ∷ xs) h = ([], x, xs, refl, refl, omega arith)
  page_cut (suc n) (x ∷ xs) h =
      let (pre, c, post, e, f, l) = page_cut n xs (ground (arith, h)) in
      (x ∷ pre, c, post, ap (λ k. x ∷ k) e, ap (λ k. x ∷ k) f, omega arith)
