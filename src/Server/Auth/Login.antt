-- ===== src/Server/Auth/Login.antt =====
-- What a login of server/internal/app/usecase/auth_usecase.go gives is accepted by ValidateToken.
use to_toggle.Prelude.{
  ℕ, ◌+◌, ◌≤◌, ◌≡◌, refl, sym, ap, ◌∙◌, subst, inl, inr, Bool, true, false, Option, none, some,
  List, [], ◌∷◌, ◌++◌, Text, text_eq, is_empty, codes, In, arith, Bool-cases,
}
use to_toggle.Server.Db.{
  Answer, ok, and_then, and_then_ok, if_found, if_found-cases, Table, Distinct,
}
use to_toggle.Server.Db.Rows.{In-++}
use to_toggle.Server.Db.Reads.{find_first_ok, find_first_keeps, find_first_state}
use to_toggle.Server.User.{User}
use to_toggle.Server.Auth.{
  Session, auth, Moment, AuthenticationResult, refused, succeeded, Bcrypt, auth_session_ttl,
  generate_session_token, new_session, store_session, create_session, get_by_username,
  validate_token,
}
use to_toggle.Server.Auth.Tokens.{LawfulAuth, Unknown}
use to_toggle.Server.Auth.Live.{validate_token-live}
use to_toggle.Server.Auth.Passwords.{
  AuthManager, get_default_strategy, check_user, local_authenticate, authenticate, start_session,
  login,
}

ok-inj : {A : Type 0} {a b : A} → ok a ≡ ok b → a ≡ b
ok-inj h = cc

random_token :
    (now : ℕ) (ulid raw : Text) (o : Option Text)
    → generate_session_token (record { now = now; ulid = ulid; random_hex = o }) ≡ ok raw
    → o ≡ some raw
random_token now ulid raw none h = cc
random_token now ulid raw (some r) h = ap some (ok-inj h)

In-last : {A : Type 0} (xs : List A) (x : A) → In x (xs ++ (x ∷ []))
In-last [] x = inl refl
In-last (y ∷ ys) x = inr (In-last ys x)

check_user-succeeded :
    (bcrypt : Bcrypt) (password : Text) (u v : User) (token : Text)
    → check_user bcrypt password v ≡ succeeded u token
    → (v ≡ u) × (u.active ≡ true)
unfolding check_user
check_user-succeeded bcrypt password u v token h = ground (arith, h)

module _ {S : Type 0} (hash : Text → Text) (sessions : Table S Session) (users : Table S User)
    (law : LawfulAuth sessions users) where
  -- A user who comes out of the local strategy is stored and active; nothing is written.
  local_authenticate-succeeded :
      (bcrypt : Bcrypt) (username password : Text) (u : User) (token : Text) (s : S)
      → (local_authenticate sessions users bcrypt username password s).1 ≡ ok (succeeded u token)
      → In u (users.rows s)
        × (u.active ≡ true)
        × (sessions.rows (local_authenticate sessions users bcrypt username password s).0
            ≡ sessions.rows s)
        × (users.rows (local_authenticate sessions users bcrypt username password s).0
            ≡ users.rows s)
  unfolding local_authenticate check_user
  local_authenticate-succeeded bcrypt username password u token s h =
      let p : User → Bool = (λ v. text_eq v.username username) in
      let f : User → S → S × Answer AuthenticationResult =
        (λ v s'. (s', ok (check_user bcrypt password v))) in
      let g : S → S × Answer AuthenticationResult =
        (λ s'. (s', ok (refused (codes "Invalid username or password")))) in
      let found = get_by_username users username s in
      let whole : local_authenticate sessions users bcrypt username password s
          ≡ if_found found f g =
        ground (arith, h) in
      elim (if_found-cases found f g) [
        | inl (v, e, q) ↦
            let (m, c) = find_first_ok (λ y. y.id) users law.users_law p s v e in
            let (same, active) =
              check_user-succeeded bcrypt password u v token
                (ok-inj (ap (λ z. z.1) (sym (whole ∙ q)) ∙ h)) in
            let state = whole ∙ q in
            (
              subst (λ y. In y (users.rows s)) same m,
              active,
              ap (λ z. sessions.rows z.0) state
                  ∙ (ap sessions.rows (find_first_state users p s) ∙ law.users_find p s),
              ap (λ z. users.rows z.0) state ∙ find_first_keeps (λ y. y.id) users law.users_law p s,
            )
        | inr q ↦ let no = ap (λ z. z.1) (sym (whole ∙ q)) ∙ h in cc
      ]

  new_one_only :
      (token : Text) (x : Session) (rows : List Session)
      → Unknown hash sessions users law token rows
      → (y : Session) → In y (rows ++ (x ∷ []))
      → y.token_hash ≡ hash token
      → y ≡ x
  new_one_only token x rows fresh y m e = elim (In-++ rows (x ∷ []) y m) [
    | inl i ↦ elim (fresh y i e) [ ]
    | inr i ↦ elim i [ inl q ↦ q | inr j ↦ elim j [ ] ]
  ]

  -- What createSession writes.
  create_session-rows :
      (w : Moment) (user_id raw : Text) (s : S)
      → (create_session hash sessions w user_id auth auth_session_ttl s).1 ≡ ok raw
      → let s' = (create_session hash sessions w user_id auth auth_session_ttl s).0 in
        (w.random_hex ≡ some raw)
        × (sessions.rows s'
            ≡ sessions.rows s ++ (new_session hash w user_id auth auth_session_ttl raw ∷ []))
        × (users.rows s' ≡ users.rows s)
  unfolding create_session store_session
  create_session-rows w user_id raw s h =
      let make : Text → S → S × Answer Text = (λ r s'.
        store_session hash sessions (new_session hash w user_id auth auth_session_ttl r) r s') in
      let (r, e, q, k) = and_then_ok (s, generate_session_token w) make raw h in
      let x = new_session hash w user_id auth auth_session_ttl r in
      let (u, e', q', k') = and_then_ok (sessions.insert x s) (λ u s'. (s', ok r)) raw k in
      let same : r ≡ raw = ok-inj k' in
      (
        random_token w.now w.ulid r w.random_hex e ∙ ap some same,
        ap (λ z. sessions.rows z.0) (q ∙ q')
            ∙ ((law.sessions_law.insert_ok x s e').0
                ∙ ap
                    (λ y.
                      sessions.rows s ++ (new_session hash w user_id auth auth_session_ttl y ∷ []))
                    same),
        ap (λ z. users.rows z.0) (q ∙ q') ∙ law.sessions_insert x s,
      )

  start_session-succeeded :
      (w : Moment) (result : AuthenticationResult) (u : User) (token : Text) (s : S)
      → (start_session sessions users hash w result s).1 ≡ ok (succeeded u token)
      → u.must_change_password ≡ false
      → (before : Text) × (result ≡ succeeded u before)
        × ((create_session hash sessions w u.id auth auth_session_ttl s).1 ≡ ok token)
        × ((start_session sessions users hash w result s).0
            ≡ (create_session hash sessions w u.id auth auth_session_ttl s).0)
  unfolding start_session
  start_session-succeeded w (refused message) u token s h n = cc
  start_session-succeeded w (succeeded v before) u token s h n =
      elim (Bool-cases v.must_change_password) [
        | inl must ↦
            let stays : start_session sessions users hash w (succeeded v before) s
                ≡ (s, ok (succeeded v before)) =
              rw must refl in
            let k : ok (succeeded v before) ≡ ok (succeeded u token) =
              (ap (λ z. z.1) (sym stays) ∙ h) in
            let same : v ≡ u = cc in
            let bad : true ≡ false = (sym must ∙ (ap (λ z. z.must_change_password) same ∙ n)) in cc
        | inr free ↦
            let made = create_session hash sessions w v.id auth auth_session_ttl s in
            let done : Text → S → S × Answer AuthenticationResult =
              (λ raw s'. (s', ok (succeeded v raw))) in
            let whole : start_session sessions users hash w (succeeded v before) s
                ≡ and_then made done =
              rw free refl in
            let (raw, e, q, k) =
              and_then_ok made done (succeeded u token) (ap (λ z. z.1) (sym whole) ∙ h) in
            let same : v ≡ u = cc in
            let raw_same : raw ≡ token = cc in
            (
              before,
              ap (λ z. succeeded z before) same,
              ap (λ z. (create_session hash sessions w z.id auth auth_session_ttl s).1) (sym same)
                  ∙ (e ∙ ap ok raw_same),
              ap (λ z. z.0) (whole ∙ q)
                  ∙ ap (λ z. (create_session hash sessions w z.id auth auth_session_ttl s).0) same,
            )
      ]

  -- A user who logs in with the local strategy and need not change the password gets a token that
  -- ValidateToken takes for this user as long as the session lives. The tables are lawful and their
  -- reads do not fail, the ids of the users are distinct, the token is not empty, and no stored
  -- session has its hash already.
  pub login-validate_token :
      (am : AuthManager S) (bcrypt : Bcrypt) (w : Moment) (username password : Text) (u : User)
      (token : Text) (s : S)
      → get_default_strategy am ≡ some (local_authenticate sessions users bcrypt)
      → ((p : Session → Bool) (s' : S) → (l : List Session) × ((sessions.find p s').1 ≡ ok l))
      → ((p : User → Bool) (s' : S) → (l : List User) × ((users.find p s').1 ≡ ok l))
      → Distinct (λ v. v.id) (users.rows s)
      → is_empty token ≡ false
      → Unknown hash sessions users law token (sessions.rows s)
      → u.must_change_password ≡ false
      → (login sessions users hash am w username password s).1 ≡ ok (succeeded u token)
      → (later : ℕ) → later ≤ w.now + auth_session_ttl
      → (validate_token hash sessions users later token
          (login sessions users hash am w username password s).0).1
        ≡ ok u
  unfolding login authenticate
  login-validate_token am bcrypt w username password u token s local reads reads' d full fresh n h
        later soon =
      let first = authenticate sessions users am username password s in
      let start : AuthenticationResult → S → S × Answer AuthenticationResult =
        start_session sessions users hash w in
      let checked : first ≡ local_authenticate sessions users bcrypt username password s =
        rw (authenticate, local) refl in
      let (result, e, q, k) = and_then_ok first start (succeeded u token) h in
      let (before, r, made, state) = start_session-succeeded w result u token first.0 k n in
      let (i, active, kept, kept') =
        local_authenticate-succeeded bcrypt username password u before s
          (ap (λ z. z.1) (sym checked) ∙ (e ∙ ap ok r)) in
      let same : sessions.rows first.0 ≡ sessions.rows s =
        (ap (λ z. sessions.rows z.0) checked ∙ kept) in
      let same' : users.rows first.0 ≡ users.rows s = (ap (λ z. users.rows z.0) checked ∙ kept') in
      let (random, rows, rows') = create_session-rows w u.id token first.0 made in
      let after = (login sessions users hash am w username password s).0 in
      let x = new_session hash w u.id auth auth_session_ttl token in
      let end : after ≡ (create_session hash sessions w u.id auth auth_session_ttl first.0).0 =
        (ap (λ z. z.0) q ∙ state) in
      let all_sessions : sessions.rows after ≡ sessions.rows s ++ (x ∷ []) =
        (ap sessions.rows end ∙ (rows ∙ ap (λ z. z ++ (x ∷ [])) same)) in
      let all_users : users.rows after ≡ users.rows s = (ap users.rows end ∙ (rows' ∙ same')) in
      validate_token-live hash sessions users law later token u x after reads reads'
        (subst (Distinct (λ v. v.id)) (sym all_users) d) full
        (λ y j c. new_one_only token x (sessions.rows s) fresh y (subst (In y) all_sessions j) c)
        (
          subst (In x) (sym all_sessions) (In-last (sessions.rows s) x),
          refl,
          refl,
          ground (arith, soon),
          subst (In u) (sym all_users) i,
          refl,
          active,
        )
