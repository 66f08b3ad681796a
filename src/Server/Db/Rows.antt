-- ===== src/Server/Db/Rows.antt =====
-- Rows under a primary key: writing or deleting the one row of a key, in its place.
use to_toggle.Prelude.{
  ◌≡◌, ◌≢◌, refl, sym, ap, ◌∙◌, inl, inr, Bool, true, false, List, [], ◌∷◌, ◌++◌, Text, text_eq,
  text_eq_iff, All, All-In, In, ◌⊎◌, ◌↔◌, select, Bool-cases,
}
use to_toggle.Server.Db.{put_row, remove_row, Fresh, Distinct}

pub text_eq-≢ : (a b : Text) → a ≢ b → text_eq a b ≡ false
text_eq-≢ a b h = elim (Bool-cases (text_eq a b)) [
  | inl e ↦ elim (h ((text_eq_iff a b).0 e)) [ ]
  | inr e ↦ e
]

pub text_eq-≡ : (a b : Text) → a ≡ b → text_eq a b ≡ true
text_eq-≡ a b h = (text_eq_iff a b).1 h

module _ {A : Type 0} where
  pub ++_assoc : (xs ys zs : List A) → (xs ++ ys) ++ zs ≡ xs ++ (ys ++ zs)
  ++_assoc [] ys zs = refl
  ++_assoc (x ∷ xs) ys zs = ap (λ l. x ∷ l) (++_assoc xs ys zs)

  pub All-++ : (P : A → Type 0) (xs ys : List A) → All P xs → All P ys → All P (xs ++ ys)
  All-++ P [] ys h k = k
  All-++ P (x ∷ xs) ys (p, h) k = (p, All-++ P xs ys h k)

  pub All-map : (P Q : A → Type 0) → ((a : A) → P a → Q a) → (xs : List A) → All P xs → All Q xs
  All-map P Q f [] h = tt
  All-map P Q f (x ∷ xs) (p, h) = (f x p, All-map P Q f xs h)

module _ {R : Type 0} (key : R → Text) where
  pub remove_row-Fresh : (k : Text) (xs : List R) → Fresh key k xs → remove_row key k xs ≡ xs
  remove_row-Fresh k [] h = refl
  remove_row-Fresh k (x ∷ xs) (n, h) =
      rw (text_eq-≢ (key x) k n) (ap (λ l. x ∷ l) (remove_row-Fresh k xs h))

  pub remove_row-middle :
      (pre : List R) (x : R) (xs : List R)
      → Fresh key (key x) pre
      → Fresh key (key x) xs
      → remove_row key (key x) (pre ++ (x ∷ xs)) ≡ pre ++ xs
  remove_row-middle [] x xs h k =
      rw (text_eq-≡ (key x) (key x) refl) (remove_row-Fresh (key x) xs k)
  remove_row-middle (y ∷ pre) x xs (n, h) k =
      rw (text_eq-≢ (key y) (key x) n) (ap (λ l. y ∷ l) (remove_row-middle pre x xs h k))

  pub put_row-middle :
      (r : R) (pre : List R) (x : R) (xs : List R)
      → key x ≡ key r
      → Fresh key (key x) pre
      → put_row key r (pre ++ (x ∷ xs)) ≡ pre ++ (r ∷ xs)
  put_row-middle r [] x xs e h = rw (text_eq-≡ (key x) (key r) e) refl
  put_row-middle r (y ∷ pre) x xs e (n, h) =
      rw (text_eq-≢ (key y) (key r) (λ q. n (q ∙ sym e)))
        (ap (λ l. y ∷ l) (put_row-middle r pre x xs e h))

module _ {A : Type 0} where
  pub In-select :
      (p : A → Bool) (xs : List A) (a : A) → In a (select p xs) ↔ (In a xs × (p a ≡ true))
  In-select p [] a = ((λ h. elim h [ ]), (λ h. h.0))
  In-select p (x ∷ xs) a = elim (Bool-cases (p x)) [
    | inl e ↦ rw e (
      (λ h. elim h [
        | inl q ↦ (inl q, ap p q ∙ e)
        | inr m ↦ let (i, t) = (In-select p xs a).0 m in (inr i, t)
      ]),
      (λ (i, t). elim i [ inl q ↦ inl q | inr m ↦ inr ((In-select p xs a).1 (m, t)) ]),
    )
    | inr e ↦ rw e (
      (λ h. let (i, t) = (In-select p xs a).0 h in (inr i, t)),
      (λ (i, t). elim i [ inl q ↦ cc | inr m ↦ (In-select p xs a).1 (m, t) ]),
    )
  ]

  pub In-++ : (xs ys : List A) (a : A) → In a (xs ++ ys) → In a xs ⊎ In a ys
  In-++ [] ys a h = inr h
  In-++ (x ∷ xs) ys a (inl e) = inl (inl e)
  In-++ (x ∷ xs) ys a (inr m) = elim (In-++ xs ys a m) [ inl k ↦ inl (inr k) | inr k ↦ inr k ]

  pub In-++_left : (xs ys : List A) (a : A) → In a xs → In a (xs ++ ys)
  In-++_left [] ys a m = elim m [ ]
  In-++_left (x ∷ xs) ys a (inl e) = inl e
  In-++_left (x ∷ xs) ys a (inr m) = inr (In-++_left xs ys a m)

  pub In-++_right : (xs ys : List A) (a : A) → In a ys → In a (xs ++ ys)
  In-++_right [] ys a m = m
  In-++_right (x ∷ xs) ys a m = inr (In-++_right xs ys a m)

-- Rows with the same key are the same row.
pub Distinct-In :
    {R : Type 0} (key : R → Text) (xs : List R) (a b : R)
    → Distinct key xs
    → In a xs
    → In b xs
    → key a ≡ key b
    → a ≡ b
Distinct-In key [] a b d m n q = elim m [ ]
Distinct-In key (x ∷ xs) a b (f, d) (inl e) (inl g) q = e ∙ sym g
Distinct-In key (x ∷ xs) a b (f, d) (inl e) (inr m) q =
    elim (All-In (λ y. key y ≢ key x) b xs f m (sym q ∙ ap key e)) [ ]
Distinct-In key (x ∷ xs) a b (f, d) (inr m) (inl g) q =
    elim (All-In (λ y. key y ≢ key x) a xs f m (q ∙ ap key g)) [ ]
Distinct-In key (x ∷ xs) a b (f, d) (inr m) (inr n) q = Distinct-In key xs a b d m n q
