-- ===== src/Server/Auth/Live.antt =====
-- ValidateToken of server/internal/app/usecase/auth_usecase.go on a session that is live.
use to_toggle.Prelude.{
  ℕ, ◌≡◌, refl, sym, ap, ◌∙◌, subst, Bool, true, false, List, Text, text_eq, text_eq_iff, is_empty,
  In,
}
use to_toggle.Server.Db.{
  invalid, ok, and_then, and_then-at, rename_error, rename_error-found, Table, Distinct,
}
use to_toggle.Server.Db.Rows.{text_eq-≡}
use to_toggle.Server.Db.Reads.{find_first_state, find_first_only, find_first_unique}
use to_toggle.Server.User.{User}
use to_toggle.Server.Auth.{
  Session, is_auth, is_expired, get_by_token_hash, get_user, accept_user, accept_session,
  validate_token,
}
use to_toggle.Server.Auth.Tokens.{LawfulAuth, LiveAs}

module _ {S : Type 0} (hash : Text → Text) (sessions : Table S Session) (users : Table S User)
    (law : LawfulAuth sessions users) where
  accept_user-active :
      (u : User) (s : S) → u.active ≡ true → (accept_user hash sessions users u s).1 ≡ ok u
  unfolding accept_user
  accept_user-active u s h = rw h refl

  accept_session-live :
      (now : ℕ) (u : User) (x : Session) (s : S)
      → ((p : User → Bool) (s' : S) → (l : List User) × ((users.find p s').1 ≡ ok l))
      → Distinct (λ v. v.id) (users.rows s)
      → is_auth x.purpose ≡ true
      → is_expired now x ≡ false
      → In u (users.rows s)
      → u.id ≡ x.user_id
      → u.active ≡ true
      → (accept_session hash sessions users now x s).1 ≡ ok u
  unfolding accept_session
  accept_session-live now u x s reads d a live i o active =
      let p : User → Bool = (λ v. text_eq v.id x.user_id) in
      let (l, found) = reads p s in
      let got =
        find_first_unique (λ v. v.id) users law.users_law (λ v. v.id) p s l u
          (λ v v' q r. (text_eq_iff v.id x.user_id).0 q ∙ sym ((text_eq_iff v'.id x.user_id).0 r)) d
          found i (text_eq-≡ u.id x.user_id o) in
      let whole : accept_session hash sessions users now x s
          ≡ and_then (get_user users x.user_id s) (accept_user hash sessions users) =
        rw (a, live) refl in
      ap (λ z. z.1) whole
      ∙ (and_then-at (get_user users x.user_id s) (accept_user hash sessions users) u got
          ∙ accept_user-active u (get_user users x.user_id s).0 active)

  -- ValidateToken accepts the one session under the hash of the token, if it is live.
  pub validate_token-live :
      (now : ℕ) (token : Text) (u : User) (x : Session) (s : S)
      → ((p : Session → Bool) (s' : S) → (l : List Session) × ((sessions.find p s').1 ≡ ok l))
      → ((p : User → Bool) (s' : S) → (l : List User) × ((users.find p s').1 ≡ ok l))
      → Distinct (λ v. v.id) (users.rows s)
      → is_empty token ≡ false
      → ((y : Session) → In y (sessions.rows s) → y.token_hash ≡ hash token → y ≡ x)
      → LiveAs hash (sessions.rows s) (users.rows s) now token u x
      → (validate_token hash sessions users now token s).1 ≡ ok u
  unfolding validate_token
  validate_token-live now token u x s reads reads' d full only (m, e, a, live, i, o, active) =
      let p : Session → Bool = (λ y. text_eq y.token_hash (hash token)) in
      let (l, found) = reads p s in
      let got =
        find_first_only (λ y. y.id) sessions law.sessions_law p s l x
          (λ y j q. only y j ((text_eq_iff y.token_hash (hash token)).0 q)) found m
          (text_eq-≡ x.token_hash (hash token) e) in
      let (named, same) =
        rename_error-found (invalid "invalid token") (get_by_token_hash hash sessions token s) x
          got in
      let after =
        (rename_error (invalid "invalid token") (get_by_token_hash hash sessions token s)).0 in
      let kept : users.rows after ≡ users.rows s =
        (ap users.rows (same ∙ find_first_state sessions p s) ∙ law.sessions_find p s) in
      let whole : validate_token hash sessions users now token s
          ≡ and_then
              (rename_error (invalid "invalid token") (get_by_token_hash hash sessions token s))
              (accept_session hash sessions users now) =
        rw full refl in
      ap (λ z. z.1) whole
      ∙ (and_then-at
            (rename_error (invalid "invalid token") (get_by_token_hash hash sessions token s))
            (accept_session hash sessions users now) x named
          ∙ accept_session-live now u x after reads' (subst (Distinct (λ v. v.id)) (sym kept) d) a
              live (subst (In u) (sym kept) i) o active)
