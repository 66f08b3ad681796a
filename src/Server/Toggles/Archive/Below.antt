-- ===== src/Server/Toggles/Archive/Below.antt =====
-- The rows below a toggle, and rows that are marked as deleted.
use to_toggle.Prelude.{
  ℕ, ◌≡◌, refl, sym, ap, ◌∙◌, subst, ◌⊎◌, inl, inr, ◌↔◌, Bool, true, false, ◌||◌, some, List, [],
  ◌∷◌, Text, In, map, Bool-cases, arith, if◌then◌else◌,
}
use to_toggle.Server.Toggles.Archive.{Stored, is_live, is_child_of}

abbrev pub deleted_row : ℕ → Stored → Stored
deleted_row now x = record x { deleted_at = some now }

-- The rows, with those for which the test holds deleted.
abbrev pub marked : ℕ → (Stored → Bool) → List Stored → List Stored
marked now d rows = map (λ x. if d x then deleted_row now x else x) rows

-- The row of an id, and the rows under it by live rows.
pub data Below (rows : List Stored) : Text → Stored → Type 0 where
  itself : {i : Text} {x : Stored} → x.toggle.id ≡ i → Below rows i x
  under :
      {i : Text} {x : Stored} (c : Stored)
      → In c rows
      → is_live c ≡ true
      → is_child_of i c ≡ true
      → Below rows c.toggle.id x
      → Below rows i x

-- Of the rows, the test holds for the live ones with a property.
abbrev pub Marks : List Stored → (Stored → Bool) → (Stored → Type 0) → Type 0
Marks rows d P = (x : Stored) → In x rows → (d x ≡ true) ↔ ((is_live x ≡ true) × P x)

pub Below-trans :
    (rows : List Stored) (i : Text) (y x : Stored)
    → Below rows i y
    → Below rows y.toggle.id x
    → Below rows i x
Below-trans rows i y x (itself e) b = subst (λ k. Below rows k x) e b
Below-trans rows i y x (under c m l h r) b = under c m l h (Below-trans rows c.toggle.id y x r b)

pub marked-live :
    (now : ℕ) (d : Stored → Bool) (rows : List Stored) (y : Stored)
    → In y (marked now d rows)
    → is_live y ≡ true
    → In y rows × (d y ≡ false)
marked-live now d [] y m l = elim m [ ]
marked-live now d (x ∷ rows) y (inr m) l = let (k, e) = marked-live now d rows y m l in (inr k, e)
marked-live now d (x ∷ rows) y (inl q) l = elim (Bool-cases (d x)) [
  | inl e ↦
      let gone : y ≡ deleted_row now x = (q ∙ rw e refl) in let bad = sym l ∙ ap is_live gone in cc
  | inr e ↦ let same : y ≡ x = (q ∙ rw e refl) in (inl same, ap d same ∙ e)
]

pub In-marked :
    (now : ℕ) (d : Stored → Bool) (rows : List Stored) (x : Stored)
    → In x rows
    → d x ≡ false
    → In x (marked now d rows)
In-marked now d [] x m e = elim m [ ]
In-marked now d (y ∷ rows) x (inr m) e = inr (In-marked now d rows x m e)
In-marked now d (y ∷ rows) x (inl q) e =
    let f : d y ≡ false = (ap d (sym q) ∙ e) in inl (q ∙ sym (rw f refl))

In-deleted :
    (now : ℕ) (d : Stored → Bool) (rows : List Stored) (x : Stored)
    → In x rows
    → d x ≡ true
    → In (deleted_row now x) (marked now d rows)
In-deleted now d [] x m e = elim m [ ]
In-deleted now d (y ∷ rows) x (inr m) e = inr (In-deleted now d rows x m e)
In-deleted now d (y ∷ rows) x (inl q) e =
    let f : d y ≡ true = (ap d (sym q) ∙ e) in inl (ap (deleted_row now) q ∙ sym (rw f refl))

pub Below-marked :
    (now : ℕ) (d : Stored → Bool) (rows : List Stored) (i : Text) (x : Stored)
    → Below (marked now d rows) i x
    → Below rows i x
Below-marked now d rows i x (itself e) = itself e
Below-marked now d rows i x (under c m l h b) =
    let (k, e) = marked-live now d rows c m l in
    under c k l h (Below-marked now d rows c.toggle.id x b)

-- A row that a deletion spares stands where it stood.
pub Below-spared :
    (now : ℕ) (d : Stored → Bool) (rows : List Stored) (P : Stored → Type 0)
    → Marks rows d P
    → ((y x : Stored) → P y → Below rows y.toggle.id x → P x)
    → (j : Text) (x : Stored) → Below rows j x
    → In x rows
    → is_live x ≡ true
    → d x ≡ false
    → Below (marked now d rows) j x
Below-spared now d rows P marks closed j x (itself e) m l spared = itself e
Below-spared now d rows P marks closed j x (under c k a h b) m l spared = elim (Bool-cases (d c)) [
  | inl gone ↦
      let (live, p) = (marks c k).0 gone in let bad = (marks x m).1 (l, closed c x p b) in cc
  | inr stays ↦
      under c (In-marked now d rows c k stays) a h
        (Below-spared now d rows P marks closed c.toggle.id x b m l spared)
]

either_marked :
    (now : ℕ) (d e : Stored → Bool) (rows : List Stored)
    → ((x : Stored) → In x rows → d x ≡ true → e (deleted_row now x) ≡ false)
    → marked now e (marked now d rows) ≡ marked now (λ x. d x || e x) rows
either_marked now d e [] f = refl
either_marked now d e (x ∷ rows) f =
    let rest = either_marked now d e rows (λ y m. f y (inr m)) in
    elim (Bool-cases (d x)) [
      | inl h ↦ rw (h, f x (inl refl) h) (ap (λ l. deleted_row now x ∷ l) rest)
      | inr h ↦ rw h (ap (λ l. (if e x then deleted_row now x else x) ∷ l) rest)
    ]

-- Two deletions, one after the other, are one of the rows of either.
pub marked-marked :
    (now : ℕ) (d e : Stored → Bool) (rows : List Stored) (Q : Stored → Type 0)
    → Marks (marked now d rows) e Q
    → marked now e (marked now d rows) ≡ marked now (λ x. d x || e x) rows
marked-marked now d e rows Q marks = either_marked now d e rows (λ x m h.
    elim (Bool-cases (e (deleted_row now x))) [
      | inr k ↦ k
      | inl k ↦ let bad = ((marks (deleted_row now x) (In-deleted now d rows x m h)).0 k).0 in cc
    ])

-- A deletion of the rows with one property, and then of those with another one that it spares.
pub either_Marks :
    (now : ℕ) (d e : Stored → Bool) (rows : List Stored) (P Q R : Stored → Type 0)
    → Marks rows d P
    → Marks (marked now d rows) e Q
    → ((x : Stored) → In x rows → is_live x ≡ true → d x ≡ false → Q x ↔ R x)
    → Marks rows (λ x. d x || e x) (λ x. P x ⊎ R x)
either_Marks now d e rows P Q R first second same x m = (
  (λ h. elim (Bool-cases (d x)) [
    | inl k ↦ let (l, p) = (first x m).0 k in (l, inl p)
    | inr k ↦
        let j : e x ≡ true = ground (arith, h, k) in
        let (l, q) = (second x (In-marked now d rows x m k)).0 j in (l, inr ((same x m l k).0 q))
  ]),
  (λ (l, c). elim (Bool-cases (d x)) [
    | inl k ↦ ground (arith, k)
    | inr k ↦ elim c [
      | inl p ↦ let j = (first x m).1 (l, p) in ground (arith, j)
      | inr r ↦
          let j = (second x (In-marked now d rows x m k)).1 (l, (same x m l k).1 r) in
          ground (arith, j)
    ]
  ]),
)

pub Marks-iff :
    (rows : List Stored) (d : Stored → Bool) (P Q : Stored → Type 0)
    → ((x : Stored) → In x rows → P x ↔ Q x)
    → Marks rows d P
    → Marks rows d Q
Marks-iff rows d P Q same marks x m = (
  (λ h. let (l, p) = (marks x m).0 h in (l, (same x m).0 p)),
  (λ (l, q). (marks x m).1 (l, (same x m).1 q)),
)
