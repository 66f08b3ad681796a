-- ===== src/Server/Db.antt =====
-- The database under server/internal/app/infrastructure/database, as the repositories call it. gorm
-- and the SQL engine are a parameter, a record of statements on a state that the model does not
-- look into, and what the code relies on is the record of its documented behaviour. Any
-- statement may fail, and then the table is as it was.
use Prim.Native.String.{String}
use to_toggle.Prelude.{
  ◌≡◌, ◌⊎◌, inl, inr, refl, arith, ◌≢◌, Bool, true, false, not, Option, none, some, List, [], ◌∷◌,
  ◌++◌, Text, text_eq, select, map, All, if◌then◌else◌,
}
pub mod Rows
pub mod Reads
pub mod Keep
pub mod Memory

-- An error that a server operation returns: of the database, of a row that is missing, or the code's
-- own, by its kind.
pub data Fault : Type 0 where
  database : Fault
  not_found : Fault
  invalid : String → Fault
  denied : Fault
  not_pending : Fault
  expired_request : Fault
  not_approved : Fault
  unsupported : Fault

pub data Answer (A : Type 0) : Type 0 where
  ok : A → Answer A
  err : Fault → Answer A

pub Answer-cases :
    {A : Type 0} (a : Answer A) → ((x : A) × (a ≡ ok x)) ⊎ ((e : Fault) × (a ≡ err e))
Answer-cases (ok x) = inl (x, refl)
Answer-cases (err e) = inr (e, refl)

-- The next statement, unless this one failed: Go's `if err != nil { return err }`.
unfoldable pub and_then : {S A B : Type 0} → S × Answer A → (A → S → S × Answer B) → S × Answer B
and_then (s, ok a) f = f a s
and_then (s, err e) f = (s, err e)

-- A chain that succeeds has each of its statements succeed.
pub and_then_ok :
    {S A B : Type 0} (x : S × Answer A) (f : A → S → S × Answer B) (b : B)
    → (and_then x f).1 ≡ ok b
    → (a : A) × (x.1 ≡ ok a) × (and_then x f ≡ f a x.0) × ((f a x.0).1 ≡ ok b)
unfolding and_then
and_then_ok (s, ok a) f b h = (a, refl, refl, h)
and_then_ok (s, err e) f b h = cc

-- A guard that refuses was not met by a call that succeeds.
pub guard_ok :
    {S A : Type 0} (b : Bool) (s : S) (e : Fault) (x : S × Answer A) (a : A)
    → (if b then (s, err e) else x).1 ≡ ok a
    → (b ≡ false) × ((if b then (s, err e) else x) ≡ x) × (x.1 ≡ ok a)
guard_ok true s e x a h = cc
guard_ok false s e x a h = (refl, refl, h)

-- A chain ends at its first statement that fails, or goes on.
pub and_then_cases :
    {S A B : Type 0} (x : S × Answer A) (f : A → S → S × Answer B)
    → ((a : A) × (x.1 ≡ ok a) × (and_then x f ≡ f a x.0))
      ⊎ ((e : Fault) × (x.1 ≡ err e) × (and_then x f ≡ (x.0, err e)))
unfolding and_then
and_then_cases (s, ok a) f = inl (a, refl, refl)
and_then_cases (s, err e) f = inr (e, refl, refl)

pub and_then-ok :
    {S A B : Type 0} (x : S × Answer A) (f : A → S → S × Answer B) (a : A)
    → x.1 ≡ ok a
    → and_then x f ≡ f a x.0
unfolding and_then
and_then-ok (s, ok b) f a h = ground (arith, h)
and_then-ok (s, err e) f a h = cc

pub and_then-err :
    {S A B : Type 0} (x : S × Answer A) (f : A → S → S × Answer B) (e : Fault)
    → x.1 ≡ err e
    → and_then x f ≡ (x.0, err e)
unfolding and_then
and_then-err (s, ok b) f e h = cc
and_then-err (s, err g) f e h = ground (arith, h)

pub and_then-at :
    {S A B : Type 0} (x : S × Answer A) (f : A → S → S × Answer B) (a : A)
    → x.1 ≡ ok a
    → (and_then x f).1 ≡ (f a x.0).1
unfolding and_then
and_then-at (s, ok b) f a h = ground (arith, h)
and_then-at (s, err e) f a h = cc

-- An error of the database, as the use case names it.
unfoldable pub rename_error : {S A : Type 0} → Fault → S × Answer A → S × Answer A
rename_error e (s, ok a) = (s, ok a)
rename_error e (s, err f) = (s, err e)

-- Go's `if err == nil`: on with what was found, or on without.
unfoldable pub if_found : {S A B : Type 0} → S × Answer A → (A → S → B) → (S → B) → B
if_found (s, ok a) f g = f a s
if_found (s, err e) f g = g s

-- Where the code names its own error, the answer without one is that of the statement.
pub rename_error_ok :
    {S A : Type 0} (e : Fault) (x : S × Answer A) (a : A)
    → (rename_error e x).1 ≡ ok a
    → (x.1 ≡ ok a) × ((rename_error e x).0 ≡ x.0)
unfolding rename_error
rename_error_ok e (s, ok b) a h = (h, refl)
rename_error_ok e (s, err f) a h = cc

pub rename_error-found :
    {S A : Type 0} (e : Fault) (x : S × Answer A) (a : A)
    → x.1 ≡ ok a
    → ((rename_error e x).1 ≡ ok a) × ((rename_error e x).0 ≡ x.0)
unfolding rename_error
rename_error-found e (s, ok b) a h = (h, refl)
rename_error-found e (s, err f) a h = cc

pub rename_error_state : {S A : Type 0} (e : Fault) (x : S × Answer A) → (rename_error e x).0 ≡ x.0
unfolding rename_error
rename_error_state e (s, ok a) = refl
rename_error_state e (s, err f) = refl

pub rename_error-err :
    {S A : Type 0} (e : Fault) (x : S × Answer A) (f : Fault)
    → (rename_error e x).1 ≡ err f
    → (g : Fault) × (x.1 ≡ err g) × ((rename_error e x).0 ≡ x.0)
unfolding rename_error
rename_error-err e (s, ok a) f h = cc
rename_error-err e (s, err g) f h = (g, refl, refl)

pub if_found-cases :
    {S A B : Type 0} (x : S × Answer A) (f : A → S → B) (g : S → B)
    → ((a : A) × (x.1 ≡ ok a) × (if_found x f g ≡ f a x.0)) ⊎ (if_found x f g ≡ g x.0)
unfolding if_found
if_found-cases (s, ok a) f g = inl (a, refl, refl)
if_found-cases (s, err e) f g = inr refl

pub if_found-ok :
    {S A B : Type 0} (x : S × Answer A) (f : A → S → B) (g : S → B) (a : A)
    → x.1 ≡ ok a
    → if_found x f g ≡ f a x.0
unfolding if_found
if_found-ok (s, ok b) f g a h = ground (arith, h)
if_found-ok (s, err e) f g a h = cc

pub if_found-err :
    {S A B : Type 0} (x : S × Answer A) (f : A → S → B) (g : S → B) (e : Fault)
    → x.1 ≡ err e
    → if_found x f g ≡ g x.0
unfolding if_found
if_found-err (s, ok b) f g e h = cc
if_found-err (s, err d) f g e h = refl

-- The statements on one table.
pub record Table (S R : Type 0) : Type 0 where
  pub rows : S → List R
  pub find : (R → Bool) → S → S × Answer (List R)
  pub insert : R → S → S × Answer Unit
  pub save : R → S → S × Answer Unit
  pub delete : Text → S → S × Answer Unit
  pub update : (R → Bool) → (R → R) → S → S × Answer Unit
  pub delete_where : (R → Bool) → S → S × Answer Unit

module _ {R : Type 0} (key : R → Text) where
  -- gorm's Save: the row with the same primary key is replaced, or else it is inserted.
  abbrev pub put_row : R → List R → List R
  put_row r [] = r ∷ []
  put_row r (x ∷ xs) =
      let rest = put_row r xs in if text_eq (key x) (key r) then r ∷ xs else x ∷ rest

  abbrev pub remove_row : Text → List R → List R
  remove_row k xs = select (λ x. not (text_eq (key x) k)) xs

  abbrev pub Fresh : Text → List R → Type 0
  Fresh k xs = All (λ x. key x ≢ k) xs

  abbrev pub update_rows : (R → Bool) → (R → R) → List R → List R
  update_rows p f xs = map (λ x. if p x then f x else x) xs

  -- The primary key tells the rows apart.
  abbrev pub Distinct : List R → Type 0
  Distinct [] = Unit
  Distinct (x ∷ xs) = Fresh (key x) xs × Distinct xs

-- What SQL and gorm promise of the statements.
pub record Lawful {S R : Type 0} (key : R → Text) (t : Table S R) : Type 0 where
  pub find_ok :
      (p : R → Bool) (s : S) (l : List R) → (t.find p s).1 ≡ ok l → l ≡ select p (t.rows s)
  pub find_keeps : (p : R → Bool) (s : S) → t.rows (t.find p s).0 ≡ t.rows s
  pub insert_ok :
      (r : R) (s : S)
      → (t.insert r s).1 ≡ ok tt
      → (t.rows (t.insert r s).0 ≡ t.rows s ++ (r ∷ [])) × Fresh key (key r) (t.rows s)
  pub insert_err :
      (r : R) (s : S) (e : Fault) → (t.insert r s).1 ≡ err e → t.rows (t.insert r s).0 ≡ t.rows s
  pub save_ok :
      (r : R) (s : S) → (t.save r s).1 ≡ ok tt → t.rows (t.save r s).0 ≡ put_row key r (t.rows s)
  pub save_err :
      (r : R) (s : S) (e : Fault) → (t.save r s).1 ≡ err e → t.rows (t.save r s).0 ≡ t.rows s
  pub delete_ok :
      (k : Text) (s : S)
      → (t.delete k s).1 ≡ ok tt
      → t.rows (t.delete k s).0 ≡ remove_row key k (t.rows s)
  pub delete_err :
      (k : Text) (s : S) (e : Fault) → (t.delete k s).1 ≡ err e → t.rows (t.delete k s).0 ≡ t.rows s
  pub update_ok :
      (p : R → Bool) (f : R → R) (s : S)
      → (t.update p f s).1 ≡ ok tt
      → t.rows (t.update p f s).0 ≡ update_rows key p f (t.rows s)
  pub update_err :
      (p : R → Bool) (f : R → R) (s : S) (e : Fault)
      → (t.update p f s).1 ≡ err e
      → t.rows (t.update p f s).0 ≡ t.rows s
  pub delete_where_ok :
      (p : R → Bool) (s : S)
      → (t.delete_where p s).1 ≡ ok tt
      → t.rows (t.delete_where p s).0 ≡ select (λ x. not (p x)) (t.rows s)
  pub delete_where_err :
      (p : R → Bool) (s : S) (e : Fault)
      → (t.delete_where p s).1 ≡ err e
      → t.rows (t.delete_where p s).0 ≡ t.rows s

-- gorm's First on a condition that at most one row satisfies.
unfoldable pub first_of : {S R : Type 0} → S × Answer (List R) → S × Answer R
first_of (s, ok []) = (s, err not_found)
first_of (s, ok (r ∷ rs)) = (s, ok r)
first_of (s, err e) = (s, err e)

unfoldable pub find_first : {S R : Type 0} → Table S R → (R → Bool) → S → S × Answer R
unfolding first_of
find_first t p s = first_of (t.find p s)
