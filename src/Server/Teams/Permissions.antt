-- ===== src/Server/Teams/Permissions.antt =====
-- The highest of the permissions of server/internal/app/usecase/team_usecase.go
-- (UserCanAccessApplication), against the question whether one of them is enough.
use to_toggle.Prelude.{
  ◌≡◌, refl, sym, ap, ◌∙◌, subst, inl, inr, Bool, true, false, ◌&&◌, ◌||◌, none, some, List, [],
  ◌∷◌, In, All, any, Bool-cases, if◌then◌else◌, ◌⊎◌, ◌↔◌,
}
use to_toggle.Server.Db.{Answer, ok, err}
use to_toggle.Server.User.{
  TeamPermissionLevel, permission_read, permission_write, permission_admin, other_permission,
}
use to_toggle.Server.Teams.{
  is_admin, is_write, is_read, highest_permission, access_of, may_modify, may_administer, Rows,
  rows_end, rows_broken, rows_next, put_permission, scan_permissions, validate_permission,
}

-- One of the three levels.
abbrev pub Known : TeamPermissionLevel → Type 0
Known p = validate_permission p ≡ ok tt

abbrev pub modifies : TeamPermissionLevel → Bool
modifies p = is_write p || is_admin p

raised_modifies :
    (h p : TeamPermissionLevel)
    → Known h
    → Known p
    → is_admin p ≡ false
    → modifies (if is_write p && is_read h then permission_write else h) ≡ modifies h || modifies p
raised_modifies permission_read permission_read k l e = refl
raised_modifies permission_read permission_write k l e = refl
raised_modifies permission_read permission_admin k l e = cc
raised_modifies permission_write permission_read k l e = refl
raised_modifies permission_write permission_write k l e = refl
raised_modifies permission_write permission_admin k l e = cc
raised_modifies permission_admin permission_read k l e = refl
raised_modifies permission_admin permission_write k l e = refl
raised_modifies permission_admin permission_admin k l e = cc
raised_modifies (other_permission t) p k l e = cc
raised_modifies permission_read (other_permission t) k l e = cc
raised_modifies permission_write (other_permission t) k l e = cc
raised_modifies permission_admin (other_permission t) k l e = cc

raised-Known :
    (h p : TeamPermissionLevel)
    → Known h
    → Known (if is_write p && is_read h then permission_write else h)
raised-Known h p k = elim (Bool-cases (is_write p && is_read h)) [
  | inl e ↦ rw e refl
  | inr e ↦ rw e k
]

||-assoc_lem : (a b c : Bool) → (a || b) || c ≡ a || (b || c)
||-assoc_lem true b c = refl
||-assoc_lem false b c = refl

||-false : (b : Bool) → b ≡ b || false
||-false true = refl
||-false false = refl

||-true : (b : Bool) → true ≡ b || true
||-true true = refl
||-true false = refl

highest-modifies :
    (ps : List TeamPermissionLevel) (h : TeamPermissionLevel)
    → Known h
    → All Known ps
    → modifies (highest_permission h ps) ≡ modifies h || any modifies ps
unfolding highest_permission
highest-modifies [] h k l = ||-false (modifies h)
highest-modifies (permission_admin ∷ ps) h k (q, l) = ||-true (modifies h)
highest-modifies (permission_write ∷ ps) h k (q, l) =
    highest-modifies ps (if is_read h then permission_write else h)
      (raised-Known h permission_write k) l
    ∙ ap (λ b. b || any modifies ps) (raised_modifies h permission_write k q refl)
    ∙ ||-assoc_lem (modifies h) true (any modifies ps)
highest-modifies (permission_read ∷ ps) h k (q, l) = highest-modifies ps h k l
highest-modifies (other_permission t ∷ ps) h k (q, l) = cc

raised_is_admin :
    (h : TeamPermissionLevel) → is_admin (if is_read h then permission_write else h) ≡ is_admin h
raised_is_admin permission_read = refl
raised_is_admin permission_write = refl
raised_is_admin permission_admin = refl
raised_is_admin (other_permission t) = refl

highest-is_admin :
    (ps : List TeamPermissionLevel) (h : TeamPermissionLevel)
    → is_admin (highest_permission h ps) ≡ is_admin h || any is_admin ps
unfolding highest_permission
highest-is_admin [] h = ||-false (is_admin h)
highest-is_admin (permission_admin ∷ ps) h = ||-true (is_admin h)
highest-is_admin (permission_write ∷ ps) h =
    highest-is_admin ps (if is_read h then permission_write else h)
    ∙ ap (λ b. b || any is_admin ps) (raised_is_admin h)
highest-is_admin (permission_read ∷ ps) h = highest-is_admin ps h
highest-is_admin (other_permission t ∷ ps) h = highest-is_admin ps h

||-twice : (a b : Bool) → a || (a || b) ≡ a || b
||-twice true b = refl
||-twice false b = refl

-- The highest permission is enough exactly when one of them is.
pub access_of-may_modify :
    (ps : List TeamPermissionLevel) → All Known ps → may_modify (access_of ps) ≡ any modifies ps
unfolding access_of
access_of-may_modify [] l = refl
access_of-may_modify (p ∷ ps) (k, l) =
    highest-modifies (p ∷ ps) p k (k, l) ∙ ||-twice (modifies p) (any modifies ps)

pub access_of-may_administer :
    (ps : List TeamPermissionLevel) → may_administer (access_of ps) ≡ any is_admin ps
unfolding access_of
access_of-may_administer [] = refl
access_of-may_administer (p ∷ ps) =
    highest-is_admin (p ∷ ps) p ∙ ||-twice (is_admin p) (any is_admin ps)

pub any-In :
    {A : Type 0} (p : A → Bool) (xs : List A) → any p xs ≡ true ↔ ((x : A) × In x xs × (p x ≡ true))
any-In p [] = ((λ h. cc), (λ (x, m, e). elim m [ ]))
any-In p (y ∷ ys) = elim (Bool-cases (p y)) [
  | inl e ↦ ((λ h. (y, inl refl, e)), (λ w. rw e refl))
  | inr e ↦ (
    (λ h. let (x, m, q) = (any-In p ys).0 (subst (λ b. b || any p ys ≡ true) e h) in (x, inr m, q)),
    (λ (x, m, q). elim m [ inl r ↦ cc | inr i ↦ rw e ((any-In p ys).1 (x, i, q)) ]),
  )
]

-- The rows that a query gave before it ended or broke off.
abbrev pub Scanned : TeamPermissionLevel → Rows → Type 0
Scanned p rows_end = ⊥
Scanned p rows_broken = ⊥
Scanned p (rows_next none rs) = Scanned p rs
Scanned p (rows_next (some q) rs) = (p ≡ q) ⊎ Scanned p rs

put_permission_ok :
    (p : TeamPermissionLevel) (a : Answer (List TeamPermissionLevel))
    (ps : List TeamPermissionLevel)
    → put_permission p a ≡ ok ps
    → (qs : List TeamPermissionLevel) × (a ≡ ok qs) × (ps ≡ p ∷ qs)
unfolding put_permission
put_permission_ok p (ok qs) ps h = (qs, refl, cc)
put_permission_ok p (err e) ps h = cc

none-In : (ps : List TeamPermissionLevel) (p : TeamPermissionLevel) → ok [] ≡ ok ps → In p ps → ⊥
none-In [] p h m = m
none-In (q ∷ ps) p h m = cc

-- What is scanned is what the rows had.
pub scan_permissions_ok :
    (rs : Rows) (ps : List TeamPermissionLevel) (p : TeamPermissionLevel)
    → scan_permissions rs ≡ ok ps
    → In p ps ↔ Scanned p rs
unfolding scan_permissions
scan_permissions_ok rows_end ps p h = (none-In ps p h, (λ m. elim m [ ]))
scan_permissions_ok rows_broken ps p h = (none-In ps p h, (λ m. elim m [ ]))
scan_permissions_ok (rows_next none rs) ps p h = cc
scan_permissions_ok (rows_next (some q) rs) ps p h =
    let (qs, e, g) = put_permission_ok q (scan_permissions rs) ps h in
    let (a, b) = scan_permissions_ok rs qs p e in
    subst (λ l. In p l ↔ (p ≡ q) ⊎ Scanned p rs) (sym g)
      (
        (λ m. elim m [ inl r ↦ inl r | inr i ↦ inr (a i) ]),
        (λ m. elim m [ inl r ↦ inl r | inr i ↦ inr (b i) ]),
      )
