-- ===== src/Server/Auth/Change.antt =====
-- The single use of a token for a change of password in server/internal/app/usecase/auth_usecase.go.
use to_toggle.Prelude.{
  ℕ, ◌≡◌, ◌≢◌, refl, sym, ap, ◌∙◌, subst, Bool, false, Text, text_eq, text_eq_iff, is_empty, In,
  arith,
}
use to_toggle.Server.Db.{
  invalid, Answer, ok, and_then, and_then_ok, rename_error, rename_error_ok, Table, Distinct,
  remove_row,
}
use to_toggle.Server.Db.Reads.{find_first_ok, find_first_keeps, find_first_state}
use to_toggle.Server.User.{User}
use to_toggle.Server.Auth.{
  Session, is_auth, is_expired, get_by_token_hash, get_user, use_up, accept_change,
  validate_password_change_token,
}
use to_toggle.Server.Auth.Tokens.{LawfulAuth, delete-Unknown}

module _ {S : Type 0} (hash : Text → Text) (sessions : Table S Session) (users : Table S User)
    (law : LawfulAuth sessions users) where
  named_session : Text → S → S × Answer Session
  named_session token s =
      rename_error (invalid "invalid token") (get_by_token_hash hash sessions token s)

  -- The session that an accepted token belongs to.
  validate_password_change_token_session :
      (now : ℕ) (token : Text) (r : Text × Text) (s : S)
      → (validate_password_change_token hash sessions users now token s).1 ≡ ok r
      → (x : Session) × In x (sessions.rows s)
        × (x.token_hash ≡ hash token)
        × (validate_password_change_token hash sessions users now token s
            ≡ accept_change hash sessions users now x (named_session token s).0)
        × (sessions.rows (named_session token s).0 ≡ sessions.rows s)
  unfolding validate_password_change_token named_session
  validate_password_change_token_session now token r s h =
      let p : Session → Bool = (λ x. text_eq x.token_hash (hash token)) in
      let full : is_empty token ≡ false = ground (arith, h) in
      let open_ : validate_password_change_token hash sessions users now token s
          ≡ and_then (named_session token s) (accept_change hash sessions users now) =
        rw full refl in
      let (x, e, q, k) =
        and_then_ok (named_session token s) (accept_change hash sessions users now) r
          (ap (λ z. z.1) (sym open_) ∙ h) in
      let (e', same) =
        rename_error_ok (invalid "invalid token") (get_by_token_hash hash sessions token s) x e in
      let (m, c) = find_first_ok (λ y. y.id) sessions law.sessions_law p s x e' in
      (
        x,
        m,
        (text_eq_iff x.token_hash (hash token)).0 c,
        open_ ∙ q,
        ap sessions.rows same ∙ find_first_keeps (λ y. y.id) sessions law.sessions_law p s,
      )

  use_up-rows :
      (x : Session) (u : User) (r : Text × Text) (s : S)
      → (use_up hash sessions users x u s).1 ≡ ok r
      → (use_up hash sessions users x u s).0 ≡ (sessions.delete x.id s).0
  unfolding use_up
  use_up-rows x u r s h = ground (arith, h)

  accept_change-rows :
      (now : ℕ) (x : Session) (r : Text × Text) (s : S)
      → ((k : Text) (s' : S) → (sessions.delete k s').1 ≡ ok tt)
      → (accept_change hash sessions users now x s).1 ≡ ok r
      → sessions.rows (accept_change hash sessions users now x s).0
        ≡ remove_row (λ y. y.id) x.id (sessions.rows s)
  unfolding accept_change
  accept_change-rows now x r s deletes h =
      let found = get_user users x.user_id s in
      let named = rename_error (invalid "user not found") found in
      let a : is_auth x.purpose ≡ false = ground (arith, h) in
      let b : is_expired now x ≡ false = ground (arith, h) in
      let open_ : accept_change hash sessions users now x s
          ≡ and_then named (use_up hash sessions users x) =
        rw (a, b) refl in
      let (u, e, q, k) =
        and_then_ok named (use_up hash sessions users x) r (ap (λ z. z.1) (sym open_) ∙ h) in
      let (e', same) = rename_error_ok (invalid "user not found") found u e in
      let kept : sessions.rows named.0 ≡ sessions.rows s =
        (ap sessions.rows (same ∙ find_first_state users (λ y. text_eq y.id x.user_id) s)
          ∙ law.users_find _ s) in
      ap (λ z. sessions.rows z.0) (open_ ∙ q)
      ∙ (ap sessions.rows (use_up-rows x u r named.0 k)
          ∙ (law.sessions_law.delete_ok x.id named.0 (deletes x.id named.0)
              ∙ ap (remove_row (λ y. y.id) x.id) kept))

  -- A token for a change of password is of a single use: where the sessions have distinct hashes and
  -- no deletion fails, a token that was accepted is not accepted again, at any time.
  pub validate_password_change_token_once :
      (now : ℕ) (token : Text) (r : Text × Text) (s : S)
      → Distinct (λ x. x.token_hash) (sessions.rows s)
      → ((k : Text) (s' : S) → (sessions.delete k s').1 ≡ ok tt)
      → (validate_password_change_token hash sessions users now token s).1 ≡ ok r
      → (later : ℕ) (r' : Text × Text)
      → (validate_password_change_token hash sessions users later token
          (validate_password_change_token hash sessions users now token s).0).1
        ≢ ok r'
  validate_password_change_token_once now token r s d deletes h later r' again =
      let s1 = (validate_password_change_token hash sessions users now token s).0 in
      let (x, m, e, q, kept) = validate_password_change_token_session now token r s h in
      let rows : sessions.rows s1 ≡ remove_row (λ y. y.id) x.id (sessions.rows s) =
        (ap (λ z. sessions.rows z.0) q
          ∙ (accept_change-rows now x r (named_session token s).0 deletes
                (ap (λ z. z.1) (sym q) ∙ h)
              ∙ ap (remove_row (λ y. y.id) x.id) kept)) in
      let gone = delete-Unknown hash sessions users law token x (sessions.rows s) d m e in
      let (y, n, f, q', kept') = validate_password_change_token_session later token r' s1 again in
      gone y (subst (In y) rows n) f
