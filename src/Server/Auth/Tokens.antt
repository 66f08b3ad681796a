-- ===== src/Server/Auth/Tokens.antt =====
-- Which tokens server/internal/app/usecase/auth_usecase.go accepts, and until when.
use to_toggle.Prelude.{
  ℕ, ◌≡◌, ◌≢◌, refl, sym, ap, ◌∙◌, subst, inl, inr, Bool, true, false, not, List, [], ◌∷◌, Text,
  text_eq, text_eq_iff, text_eq_refl, select, is_empty, In, arith,
}
use to_toggle.Server.Db.{
  Fault, invalid, Answer, ok, err, and_then, and_then_ok, rename_error, rename_error_ok, if_found,
  if_found-ok, if_found-err, Answer-cases, remove_row, Table, Lawful, Distinct,
}
use to_toggle.Server.Db.Rows.{In-select, Distinct-In}
use to_toggle.Server.Db.Reads.{find_first_ok, find_first_keeps, find_first_state, find_first_unique}
use to_toggle.Server.User.{User}
use to_toggle.Server.Auth.{
  Session, is_auth, is_expired, get_by_token_hash, get_user, accept_user, accept_session,
  validate_token, logout,
}

-- What the database promises of the tables of the sessions and of the users.
pub record LawfulAuth {S : Type 0} (sessions : Table S Session) (users : Table S User)
    : Type 0 where
  pub sessions_law : Lawful (λ x. x.id) sessions
  pub users_law : Lawful (λ u. u.id) users
  pub sessions_find : (p : Session → Bool) (s : S) → users.rows (sessions.find p s).0 ≡ users.rows s
  pub sessions_insert : (x : Session) (s : S) → users.rows (sessions.insert x s).0 ≡ users.rows s
  pub sessions_delete : (k : Text) (s : S) → users.rows (sessions.delete k s).0 ≡ users.rows s
  pub sessions_delete_where :
      (p : Session → Bool) (s : S) → users.rows (sessions.delete_where p s).0 ≡ users.rows s
  pub users_find : (p : User → Bool) (s : S) → sessions.rows (users.find p s).0 ≡ sessions.rows s
  pub users_save : (u : User) (s : S) → sessions.rows (users.save u s).0 ≡ sessions.rows s

err-not_ok : {A : Type 0} (f : Fault) (a : A) → err f ≢ ok a
err-not_ok f a = λ h. cc

-- A live session of the user in the table under the hash of the token.
abbrev pub LiveAs : (Text → Text) → List Session → List User → ℕ → Text → User → Session → Type 0
LiveAs hash sessions users now token u x =
    In x sessions
    × (x.token_hash ≡ hash token)
    × (is_auth x.purpose ≡ true)
    × (is_expired now x ≡ false)
    × In u users
    × (u.id ≡ x.user_id)
    × (u.active ≡ true)

abbrev pub LiveSession : (Text → Text) → List Session → List User → ℕ → Text → User → Type 0
LiveSession hash sessions users now token u =
    (x : Session) × LiveAs hash sessions users now token u x

module _ {S : Type 0} (hash : Text → Text) (sessions : Table S Session) (users : Table S User)
    (law : LawfulAuth sessions users) where
  accept_user_ok :
      (u v : User) (s : S)
      → (accept_user hash sessions users u s).1 ≡ ok v
      → (u ≡ v) × (v.active ≡ true)
  unfolding accept_user
  accept_user_ok u v s h = ground (arith, h)

  accept_session_ok :
      (now : ℕ) (x : Session) (u : User) (s : S)
      → (accept_session hash sessions users now x s).1 ≡ ok u
      → (is_auth x.purpose ≡ true)
        × (is_expired now x ≡ false)
        × In u (users.rows s)
        × (u.id ≡ x.user_id)
        × (u.active ≡ true)
  unfolding accept_session
  accept_session_ok now x u s h =
      let live : (is_auth x.purpose ≡ true) × (is_expired now x ≡ false) = ground (arith, h) in
      let (a, b) = live in
      let rest : (and_then (get_user users x.user_id s) (accept_user hash sessions users)).1
          ≡ ok u =
        ground (arith, h, a, b) in
      let (v, e, q, k) =
        and_then_ok (get_user users x.user_id s) (accept_user hash sessions users) u rest in
      let (m, c) =
        find_first_ok (λ y. y.id) users law.users_law (λ y. text_eq y.id x.user_id) s v e in
      let (same, active) = accept_user_ok v u (get_user users x.user_id s).0 k in
      (
        a,
        b,
        subst (λ y. In y (users.rows s)) same m,
        ap (λ y. y.id) (sym same) ∙ (text_eq_iff v.id x.user_id).0 c,
        active,
      )

  -- A token that ValidateToken accepts, on lawful tables, is that of a stored session for
  -- authentication that has not expired, of a stored user who is active, and this is the user who
  -- comes back.
  pub validate_token_ok :
      (now : ℕ) (token : Text) (u : User) (s : S)
      → (validate_token hash sessions users now token s).1 ≡ ok u
      → LiveSession hash (sessions.rows s) (users.rows s) now token u
  unfolding validate_token
  validate_token_ok now token u s h =
      let found = get_by_token_hash hash sessions token s in
      let named = rename_error (invalid "invalid token") found in
      let rest : (and_then named (accept_session hash sessions users now)).1 ≡ ok u =
        ground (arith, h) in
      let (x, e, q, k) = and_then_ok named (accept_session hash sessions users now) u rest in
      let (e', same) = rename_error_ok (invalid "invalid token") found x e in
      let (m, c) =
        find_first_ok (λ y. y.id) sessions law.sessions_law (λ y. text_eq y.token_hash (hash token))
          s x e' in
      let (a, b, i, o, active) = accept_session_ok now x u named.0 k in
      let users_same : users.rows named.0 ≡ users.rows s =
        (ap users.rows (same ∙ find_first_state sessions (λ y. text_eq y.token_hash (hash token)) s)
          ∙ law.sessions_find _ s) in
      (
        x,
        (
          m,
          (text_eq_iff x.token_hash (hash token)).0 c,
          a,
          b,
          subst (In u) users_same i,
          o,
          active,
        ),
      )

  -- The text is the token of no row.
  abbrev pub Unknown : Text → List Session → Type 0
  Unknown token rows = (x : Session) → In x rows → x.token_hash ≢ hash token

  Unknown-validate_token :
      (now : ℕ) (token : Text) (u : User) (s : S)
      → Unknown token (sessions.rows s)
      → (validate_token hash sessions users now token s).1 ≢ ok u
  Unknown-validate_token now token u s n h =
      let (x, (m, e, a, b, i, o, c)) = validate_token_ok now token u s h in n x m e

  -- Deleting the one row under the hash of a token leaves it unknown.
  pub delete-Unknown :
      (token : Text) (x : Session) (rows : List Session)
      → Distinct (λ y. y.token_hash) rows
      → In x rows
      → x.token_hash ≡ hash token
      → Unknown token (select (λ y. not (text_eq y.id x.id)) rows)
  delete-Unknown token x rows d m e y i q =
      let (j, n) = (In-select (λ z. not (text_eq z.id x.id)) rows y).0 i in
      let same : y ≡ x = Distinct-In (λ z. z.token_hash) rows y x d j m (q ∙ sym e) in
      let own = text_eq_refl x.id in
      let at : not (text_eq x.id x.id) ≡ true =
        (ap (λ z. not (text_eq z.id x.id)) (sym same) ∙ n) in
      ground (arith, own, at)

  not_found-Unknown :
      (token : Text) (s : S) (l : List Session)
      → (sessions.find (λ y. text_eq y.token_hash (hash token)) s).1 ≡ ok l
      → Distinct (λ y. y.token_hash) (sessions.rows s)
      → ((x : Session) → (get_by_token_hash hash sessions token s).1 ≢ ok x)
      → Unknown token (sessions.rows s)
  not_found-Unknown token s l e d none_of x m q = none_of x (
      find_first_unique (λ y. y.id) sessions law.sessions_law (λ y. y.token_hash)
        (λ y. text_eq y.token_hash (hash token)) s l x
        (λ a b p r.
          (text_eq_iff a.token_hash (hash token)).0 p
          ∙ sym ((text_eq_iff b.token_hash (hash token)).0 r))
        d e m ((text_eq_iff x.token_hash (hash token)).1 q))

  abbrev logout_body : Text → S → S × Answer Unit
  logout_body token s =
      if_found (get_by_token_hash hash sessions token s) (λ x s'. sessions.delete x.id s')
        (λ s'. (s', ok tt))

  logout-body :
      (token : Text) (s : S)
      → is_empty token ≡ false
      → logout hash sessions token s ≡ logout_body token s
  unfolding logout
  logout-body token s h = rw h refl

  logout_body-Unknown :
      (token : Text) (s : S) (l : List Session)
      → Distinct (λ x. x.token_hash) (sessions.rows s)
      → (sessions.find (λ x. text_eq x.token_hash (hash token)) s).1 ≡ ok l
      → (logout_body token s).1 ≡ ok tt
      → Unknown token (sessions.rows (logout_body token s).0)
  logout_body-Unknown token s l d e h =
      let p : Session → Bool = (λ x. text_eq x.token_hash (hash token)) in
      let kept = find_first_keeps (λ x. x.id) sessions law.sessions_law p s in
      elim (Answer-cases (get_by_token_hash hash sessions token s).1) [
        | inl (x, f) ↦
            let q =
              if_found-ok (get_by_token_hash hash sessions token s)
                (λ x s'. sessions.delete x.id s') (λ s'. (s', ok tt)) x f in
            let (m, c) = find_first_ok (λ y. y.id) sessions law.sessions_law p s x f in
            let gone =
              law.sessions_law.delete_ok x.id (get_by_token_hash hash sessions token s).0
                (ap (λ z. z.1) (sym q) ∙ h) in
            let rows : sessions.rows (logout_body token s).0
                ≡ remove_row (λ y. y.id) x.id (sessions.rows s) =
              (ap (λ z. sessions.rows z.0) q ∙ (gone ∙ ap (remove_row (λ y. y.id) x.id) kept)) in
            subst (Unknown token) (sym rows) (
              delete-Unknown token x (sessions.rows s) d m
                ((text_eq_iff x.token_hash (hash token)).0 c))
        | inr (f, g) ↦
            let q =
              if_found-err (get_by_token_hash hash sessions token s)
                (λ x s'. sessions.delete x.id s') (λ s'. (s', ok tt)) f g in
            let rows : sessions.rows (logout_body token s).0 ≡ sessions.rows s =
              (ap (λ z. sessions.rows z.0) q ∙ kept) in
            subst (Unknown token) (sym rows)
              (not_found-Unknown token s l e d (λ x k. err-not_ok f x (sym g ∙ k)))
      ]

  validate_token-empty :
      (now : ℕ) (u : User) (s : S) → (validate_token hash sessions users now [] s).1 ≢ ok u
  unfolding validate_token
  validate_token-empty now u s = λ h. cc

  -- When Logout succeeds, its read of the sessions did not fail and their hashes are distinct, no
  -- token of that hash is accepted from then on, at any time.
  pub logout-validate_token :
      (token : Text) (s : S) (l : List Session)
      → Distinct (λ x. x.token_hash) (sessions.rows s)
      → (sessions.find (λ x. text_eq x.token_hash (hash token)) s).1 ≡ ok l
      → (logout hash sessions token s).1 ≡ ok tt
      → (now : ℕ) (u : User)
      → (validate_token hash sessions users now token (logout hash sessions token s).0).1 ≢ ok u
  unfolding logout
  logout-validate_token [] s l d e h now u = validate_token-empty now u s
  logout-validate_token (c ∷ token) s l d e h now u =
      Unknown-validate_token now (c ∷ token) u (logout_body (c ∷ token) s).0
        (logout_body-Unknown (c ∷ token) s l d e h)
