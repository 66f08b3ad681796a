-- ===== src/Server/Db/Keep.antt =====
-- What a statement keeps of the rows.
use to_toggle.Prelude.{
  ◌≡◌, ◌≢◌, sym, ap, ◌∙◌, subst, inl, inr, Bool, List, [], ◌∷◌, Text, text_eq, text_eq_iff, select,
  map, All, In, Bool-cases, if◌then◌else◌, true, false,
}
use to_toggle.Server.Db.{put_row, Fresh, Distinct, Answer, ok, err, and_then}

-- What holds of the state before a chain, and is kept by each of its statements, holds after it.
pub and_then_holds :
    {S A B : Type 0} (P : S → Type 0) (x : S × Answer A) (f : A → S → S × Answer B)
    → P x.0
    → ((a : A) (s : S) → P s → P (f a s).0)
    → P (and_then x f).0
unfolding and_then
and_then_holds P (s, ok a) f h k = k a s h
and_then_holds P (s, err e) f h k = h

pub guard_holds :
    {S A : Type 0} (P : S → Type 0) (b : Bool) (x y : S × Answer A)
    → P x.0
    → P y.0
    → P (if b then x else y).0
guard_holds P true x y h k = h
guard_holds P false x y h k = k

module _ {A : Type 0} where
  pub All-select : (P : A → Type 0) (p : A → Bool) (xs : List A) → All P xs → All P (select p xs)
  All-select P p [] h = tt
  All-select P p (x ∷ xs) (q, h) = elim (Bool-cases (p x)) [
    | inl e ↦ rw e (q, All-select P p xs h)
    | inr e ↦ rw e (All-select P p xs h)
  ]

  pub All-each :
      (P Q : A → Type 0) (f : A → A)
      → ((a : A) → P a → Q (f a))
      → (xs : List A) → All P xs
      → All Q (map f xs)
  All-each P Q f k [] h = tt
  All-each P Q f k (x ∷ xs) (p, h) = (k x p, All-each P Q f k xs h)

  pub In-map : (f : A → A) (xs : List A) (x : A) → In x xs → In (f x) (map f xs)
  In-map f [] x m = elim m [ ]
  In-map f (y ∷ ys) x (inl e) = inl (ap f e)
  In-map f (y ∷ ys) x (inr m) = inr (In-map f ys x m)

module _ {R : Type 0} (key : R → Text) where
  pub All-put_row :
      (P : R → Type 0) (r : R) (xs : List R) → P r → All P xs → All P (put_row key r xs)
  All-put_row P r [] p h = (p, tt)
  All-put_row P r (x ∷ xs) p (q, h) = elim (Bool-cases (text_eq (key x) (key r))) [
    | inl e ↦ rw e (p, h)
    | inr e ↦ rw e (q, All-put_row P r xs p h)
  ]

  pub In-put_row : (r : R) (xs : List R) (x : R) → In x xs → key x ≢ key r → In x (put_row key r xs)
  In-put_row r [] x m n = elim m [ ]
  In-put_row r (y ∷ ys) x m n = elim (Bool-cases (text_eq (key y) (key r))) [
    | inl e ↦ rw e (elim m [
      | inl q ↦ elim (n (ap key q ∙ (text_eq_iff (key y) (key r)).0 e)) [ ]
      | inr i ↦ inr i
    ])
    | inr e ↦ rw e (elim m [ inl q ↦ inl q | inr i ↦ inr (In-put_row r ys x i n) ])
  ]

  pub Distinct-put_row : (r : R) (xs : List R) → Distinct key xs → Distinct key (put_row key r xs)
  Distinct-put_row r [] d = (tt, tt)
  Distinct-put_row r (x ∷ xs) (f, d) = elim (Bool-cases (text_eq (key x) (key r))) [
    | inl e ↦ rw e (subst (λ k. Fresh key k xs) ((text_eq_iff (key x) (key r)).0 e) f, d)
    | inr e ↦ rw e (
      All-put_row (λ y. key y ≢ key x) r xs
          (λ q. let same = (text_eq_iff (key x) (key r)).1 (sym q) in cc) f,
      Distinct-put_row r xs d,
    )
  ]

  pub Distinct-select : (p : R → Bool) (xs : List R) → Distinct key xs → Distinct key (select p xs)
  Distinct-select p [] d = tt
  Distinct-select p (x ∷ xs) (f, d) = elim (Bool-cases (p x)) [
    | inl e ↦ rw e (All-select (λ y. key y ≢ key x) p xs f, Distinct-select p xs d)
    | inr e ↦ rw e (Distinct-select p xs d)
  ]

  pub Distinct-map :
      (f : R → R)
      → ((r : R) → key (f r) ≡ key r)
      → (xs : List R) → Distinct key xs
      → Distinct key (map f xs)
  Distinct-map f k [] d = tt
  Distinct-map f k (x ∷ xs) (g, d) = (
    All-each (λ y. key y ≢ key x) (λ y. key y ≢ key (f x)) f (λ y n q. n (sym (k y) ∙ (q ∙ k x))) xs
        g,
    Distinct-map f k xs d,
  )
