-- ===== src/Server/Approval/Gate/Settled.antt =====
-- The settings of approvals in force, and the requests that ApprovalAware of
-- server/internal/app/middleware/approval.go lets through.
use to_toggle.Prelude.{
  ℕ, ◌≤◌, ◌≡◌, refl, sym, ap, ◌∙◌, subst, Bool, true, false, ◌&&◌, Option, some, List, [], ◌∷◌,
  Text, text_eq_iff, In, inl, inr, arith, Bool-cases, if◌then◌else◌,
}
use to_toggle.Server.Db.{Answer, ok, err, and_then-ok, Table, Lawful, put_row, find_first}
use to_toggle.Server.Db.Reads.{find_first_keeps, find_first_only}
use to_toggle.Server.User.{UserRole, User, is_root}
use to_toggle.Server.Approval.{ActionType}
use to_toggle.Server.Approval.Settings.{
  ApprovalConfig, ApprovalSettings, UpdateRequest, pos, requires_approval, apply_update,
  config_requires, set_enabled, set_required_actions, set_expiration_days, validate_settings,
  apply_update-requires_approval,
}
use to_toggle.Server.Approval.Gate

module _ {S : Type 0} (marshal : ApprovalConfig → Text) (unmarshal : Text → Option ApprovalConfig)
    (t : Table S ApprovalSettings) where
  or_default-ok :
      (ulid : Text) (p : S × Answer ApprovalSettings) (x : ApprovalSettings)
      → p.1 ≡ ok x
      → ((Gate.or_default marshal unmarshal t ulid p).1 ≡ ok x)
        × ((Gate.or_default marshal unmarshal t ulid p).0 ≡ p.0)
  unfolding Gate.or_default
  or_default-ok ulid (s, ok y) x h = (h, refl)
  or_default-ok ulid (s, err e) x h = cc

  required-off :
      (x : ApprovalSettings) (action : ActionType)
      → x.approval_enabled ≡ false
      → requires_approval marshal unmarshal x action ≡ false
  unfolding requires_approval
  required-off x action h = ground (arith, h)

  unless_required-at :
      (role : UserRole) (u : User) (action : ActionType) (p : S × Answer Bool) (b : Bool)
      → p.1 ≡ ok b
      → (Gate.unless_required marshal unmarshal t role u action p).1
        ≡ (if b then Gate.asks_for action else Gate.by_role role u)
  unfolding Gate.unless_required
  unless_required-at role u action (s, ok true) b h = ground (arith, h)
  unless_required-at role u action (s, ok false) b h = ground (arith, h)
  unless_required-at role u action (s, err e) b h = cc

  if_enabled-at :
      (ulid : Text) (role : UserRole) (u : User) (r : Gate.Request) (p : S × Answer Bool)
      (b q : Bool)
      → p.1 ≡ ok b
      → (b ≡ false → q ≡ false)
      → (Gate.stored_requires_approval marshal unmarshal t ulid (Gate.get_action_type r) p.0).1
        ≡ ok q
      → (Gate.if_enabled marshal unmarshal t ulid role u r p).1
        ≡ (if q then Gate.asks_for (Gate.get_action_type r) else Gate.by_role role u)
  unfolding Gate.if_enabled
  if_enabled-at ulid role u r (s, ok true) b q h off e =
      unless_required-at role u (Gate.get_action_type r) _ q e
  if_enabled-at ulid role u r (s, ok false) b q h off e =
      let z = off (ground (arith, h)) in ground (arith, z)
  if_enabled-at ulid role u r (s, err f) b q h off e = cc

  validate_settings-same :
      (y z : ApprovalSettings) → validate_settings marshal unmarshal y ≡ ok z → z ≡ y
  unfolding validate_settings
  validate_settings-same y z h = ground (arith, h)

  save_valid-ok :
      (a : Answer ApprovalSettings) (s : S)
      → (Gate.save_valid marshal unmarshal t a s).1 ≡ ok tt
      → (z : ApprovalSettings) × (a ≡ ok z)
        × ((t.save z s).1 ≡ ok tt)
        × ((Gate.save_valid marshal unmarshal t a s).0 ≡ (t.save z s).0)
  unfolding Gate.save_valid
  save_valid-ok (ok z) s h = (z, refl, h, refl)
  save_valid-ok (err e) s h = cc

  put_row-one : (x y : ApprovalSettings) → y.id ≡ x.id → put_row (λ z. z.id) y (x ∷ []) ≡ y ∷ []
  put_row-one x y same = let q = (text_eq_iff x.id y.id).1 (sym same) in ground (arith, q)

  module _ (law : Lawful (λ x. x.id) t)
      (reads : (s : S) → (l : List ApprovalSettings) × ((t.find (λ x. true) s).1 ≡ ok l)) where
    get_settings-one :
        (ulid : Text) (s : S) (x : ApprovalSettings)
        → t.rows s ≡ x ∷ []
        → ((Gate.get_settings marshal unmarshal t ulid s).1 ≡ ok x)
          × (t.rows (Gate.get_settings marshal unmarshal t ulid s).0 ≡ x ∷ [])
    unfolding Gate.get_settings
    get_settings-one ulid s x one =
        let (l, read) = reads s in
        let found =
          find_first_only (λ y. y.id) t law (λ y. true) s l x
            (λ y m h. elim (subst (λ k. In y k) one m) [ inl e ↦ e | inr n ↦ elim n [ ] ]) read
            (subst (λ k. In x k) (sym one) (inl refl)) refl in
        let (a, b) = or_default-ok ulid (find_first t (λ y. true) s) x found in
        (a, ap t.rows b ∙ find_first_keeps (λ y. y.id) t law (λ y. true) s ∙ one)

    is_approval_enabled-one :
        (ulid : Text) (s : S) (x : ApprovalSettings)
        → t.rows s ≡ x ∷ []
        → ((Gate.is_approval_enabled marshal unmarshal t ulid s).1 ≡ ok x.approval_enabled)
          × (t.rows (Gate.is_approval_enabled marshal unmarshal t ulid s).0 ≡ x ∷ [])
    unfolding Gate.is_approval_enabled
    is_approval_enabled-one ulid s x one =
        let (a, b) = get_settings-one ulid s x one in
        let e =
          and_then-ok (Gate.get_settings marshal unmarshal t ulid s)
            (λ y s1. (s1, ok y.approval_enabled)) x a in
        (ap (λ z. z.1) e, ap (λ z. t.rows z.0) e ∙ b)

    stored_requires_approval-one :
        (ulid : Text) (action : ActionType) (s : S) (x : ApprovalSettings)
        → t.rows s ≡ x ∷ []
        → (Gate.stored_requires_approval marshal unmarshal t ulid action s).1
          ≡ ok (requires_approval marshal unmarshal x action)
    unfolding Gate.stored_requires_approval
    stored_requires_approval-one ulid action s x one =
        let (a, b) = get_settings-one ulid s x one in
        ap (λ z. z.1)
          (and_then-ok (Gate.get_settings marshal unmarshal t ulid s)
            (λ y s1. (s1, ok (requires_approval marshal unmarshal y action))) x a)

    approval_aware-one :
        (ulid : Text) (role : UserRole) (u : User) (r : Gate.Request) (s : S) (x : ApprovalSettings)
        → t.rows s ≡ x ∷ []
        → (Gate.approval_aware marshal unmarshal t ulid role (some u) r s).1 ≡ (
            if is_root u
            then Gate.passes
            else if requires_approval marshal unmarshal x (Gate.get_action_type r)
            then Gate.asks_for (Gate.get_action_type r)
            else Gate.by_role role u)
    unfolding Gate.approval_aware
    approval_aware-one ulid role u r s x one =
        let p = Gate.is_approval_enabled marshal unmarshal t ulid s in
        let (a, b) = is_approval_enabled-one ulid s x one in
        let e =
          if_enabled-at ulid role u r p x.approval_enabled
            (requires_approval marshal unmarshal x (Gate.get_action_type r)) a
            (required-off x (Gate.get_action_type r))
            (stored_requires_approval-one ulid (Gate.get_action_type r) p.0 x b) in
        elim (Bool-cases (is_root u)) [ inl h ↦ ground (arith, h) | inr h ↦ rw (h) e ]

    update_settings-one :
        (x y : ApprovalSettings) (s : S)
        → t.rows s ≡ x ∷ []
        → y.id ≡ x.id
        → (Gate.update_settings marshal unmarshal t y s).1 ≡ ok tt
        → t.rows (Gate.update_settings marshal unmarshal t y s).0 ≡ y ∷ []
    unfolding Gate.update_settings
    update_settings-one x y s one same h =
        let (z, valid, saved, state) = save_valid-ok (validate_settings marshal unmarshal y) s h in
        ap t.rows state
        ∙ law.save_ok z s saved
        ∙ ap (λ l. put_row (λ w. w.id) z l) one
        ∙ ap (λ w. put_row (λ v. v.id) w (x ∷ [])) (validate_settings-same y z valid)
        ∙ put_row-one x y same

    apply_update-id :
        (req : UpdateRequest) (x y : ApprovalSettings)
        → apply_update marshal unmarshal req x ≡ ok y
        → y.id ≡ x.id
    unfolding apply_update set_enabled set_required_actions set_expiration_days validate_settings
    apply_update-id req x y h = ground (arith, h)

    -- When an update of the one stored row of settings is accepted and saved, and names a
    -- configuration, the settings name one to thirty days, and from then on ApprovalAware
    -- lets a request of root through, turns one into a request for an approval exactly when approval
    -- is enabled and the configuration has the action of its method, path and body, and decides by
    -- the role on any other. The table is lawful, its reads do not fail, and decoding undoes encoding.
    pub update_settings-approval_aware :
        ((c : ApprovalConfig) → unmarshal (marshal c) ≡ some c)
        → (req : UpdateRequest) (x y : ApprovalSettings) (c : ApprovalConfig) (s : S)
        → t.rows s ≡ x ∷ []
        → req.required_actions ≡ some c
        → apply_update marshal unmarshal req x ≡ ok y
        → (Gate.update_settings marshal unmarshal t y s).1 ≡ ok tt
        → ((n : ℕ) × (y.default_expiration_days ≡ pos n) × (1 ≤ n) × (n ≤ 30))
          × ((ulid : Text) (role : UserRole) (u : User) (r : Gate.Request)
              → (Gate.approval_aware marshal unmarshal t ulid role
                  (some u)
                  r
                  (Gate.update_settings marshal unmarshal t y s).0).1
                ≡ (if is_root u
                    then Gate.passes
                    else if y.approval_enabled && config_requires c (Gate.get_action_type r)
                    then Gate.asks_for (Gate.get_action_type r)
                    else Gate.by_role role u))
    update_settings-approval_aware back req x y c s one named applied saved =
        let (days, asks) =
          apply_update-requires_approval marshal unmarshal back req x y c named applied in
        let now = update_settings-one x y s one (apply_update-id req x y applied) saved in
        (
          days,
          λ ulid role u r.
              approval_aware-one ulid role u r _ y now
              ∙ ap
                  (λ b.
                    if is_root u
                    then Gate.passes
                    else if b
                    then Gate.asks_for (Gate.get_action_type r)
                    else Gate.by_role role u)
                  (asks (Gate.get_action_type r)),
        )
