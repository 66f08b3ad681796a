-- ===== src/Server/Approval/Decisions.antt =====
-- Every branch of a decision on a request: ApproveRequest and RejectRequest.
use to_toggle.Prelude.{
  ◌≡◌, ◌≢◌, refl, ap, ◌∙◌, subst, ◌⊎◌, inl, inr, Bool, true, false, not, List, Text, text_eq, In,
  arith, Bool-cases, if◌then◌else◌,
}
use to_toggle.Server.Db.{
  Fault, denied, Answer, ok, err, and_then, and_then_cases, and_then-ok, and_then-err, put_row,
}
use to_toggle.Server.Db.Rows.{text_eq-≡}
use to_toggle.Server.User.{User, can_act}
use to_toggle.Server.Approval.{pending, ApprovalRequest, Times, is_expired, can_be_approved_by}
use to_toggle.Server.Approval.Workflow.{
  Stores, Decoder, as_read, get_request, save_decision, decide,
}
use to_toggle.Server.Approval.Reading.{
  LawfulStores, MayAct, get_request-cases, can_act_keeps, can_act-MayAct, save_changed-cases,
}

-- The decision `change` may be taken by `u` on the row `r0`, and makes it `r`.
pub record IsAllowed {S : Type 0} (st : Stores S) (times : Times) (id : Text) (u : User)
    (change : ApprovalRequest → Answer ApprovalRequest) (s : S) (r0 r : ApprovalRequest)
    : Type 0 where
  pub row : In r0 (st.requests.rows s)
  pub named : r0.id ≡ id
  pub open_is : r0.status ≡ pending
  pub live : is_expired times.asked r0 ≡ false
  pub of_another : r0.requested_by ≢ u.id
  pub may : MayAct u r0.team_id (st.members.rows s)
  pub changed : change (as_read r0) ≡ ok r

can_be_approved_by_parts :
    (times : Times) (u : User) (ar : ApprovalRequest)
    → can_be_approved_by times.asked u.id ar ≡ true
    → (ar.status ≡ pending)
      × (is_expired times.asked ar ≡ false)
      × (text_eq ar.requested_by u.id ≡ false)
unfolding can_be_approved_by
can_be_approved_by_parts times u ar h = ground (arith, h)

allowed :
    {S : Type 0} (st : Stores S) (times : Times) (id : Text) (u : User)
    (change : ApprovalRequest → Answer ApprovalRequest) (s : S) (r0 r : ApprovalRequest)
    → In r0 (st.requests.rows s)
    → r0.id ≡ id
    → can_be_approved_by times.asked u.id (as_read r0) ≡ true
    → MayAct u r0.team_id (st.members.rows s)
    → change (as_read r0) ≡ ok r
    → IsAllowed st times id u change s r0 r
allowed st times id u change s r0 r m n on may c =
    let (o, l, a) = can_be_approved_by_parts times u (as_read r0) on in
    record {
      row = m;
      named = n;
      open_is = o;
      live = l;
      of_another = λ e. let same = text_eq-≡ r0.requested_by u.id e in cc;
      may = may;
      changed = c;
    }

module _ {S : Type 0} (st : Stores S) (json : Decoder) (law : LawfulStores st) where
  -- A step either writes one row as it may, or leaves every row.
  abbrev Outcome :
      List ApprovalRequest → (ApprovalRequest → Type 0) → S × Answer ApprovalRequest → Type 0
  Outcome rows P x =
      ((r : ApprovalRequest) × (x.1 ≡ ok r)
        × (st.requests.rows x.0 ≡ put_row (λ ar. ar.id) r rows)
        × P r)
      ⊎ ((e : Fault) × (x.1 ≡ err e) × (st.requests.rows x.0 ≡ rows))

  save_decision-cases :
      (u : User) (change : ApprovalRequest → Answer ApprovalRequest) (ar : ApprovalRequest)
      (may : Bool) (s : S)
      → Outcome
          (st.requests.rows s)
          (λ r. (may ≡ true) × (change ar ≡ ok r))
          (save_decision st json u change ar may s)
  unfolding save_decision
  save_decision-cases u change ar false s = inr (denied, refl, refl)
  save_decision-cases u change ar true s = elim (save_changed-cases st json law (change ar) s) [
    | inl (r, e, c, w) ↦ inl (r, e, w, (refl, c))
    | inr (e, h, w) ↦ inr (e, h, w)
  ]

  act-cases :
      (u : User) (change : ApprovalRequest → Answer ApprovalRequest) (ar : ApprovalRequest) (s : S)
      → Outcome
          (st.requests.rows s)
          (λ r. MayAct u ar.team_id (st.members.rows s) × (change ar ≡ ok r))
          (and_then
            (can_act st.members u ar.team_id s)
            (λ may s2. save_decision st json u change ar may s2))
  act-cases u change ar s =
      let asked = can_act st.members u ar.team_id s in
      let kept = can_act_keeps st json law u ar.team_id s in
      elim (and_then_cases asked (λ may s2. save_decision st json u change ar may s2)) [
        | inl (may, e, q) ↦ elim (save_decision-cases u change ar may asked.0) [
          | inl (r, f, w, (m, c)) ↦ inl (
            r,
            ap (λ z. z.1) q ∙ f,
            ap (λ z. st.requests.rows z.0) q ∙ (w ∙ ap (put_row (λ x. x.id) r) kept),
            (can_act-MayAct st json law u ar.team_id s (e ∙ ap ok m), c),
          )
          | inr (g, h, w) ↦
              inr (g, ap (λ z. z.1) q ∙ h, ap (λ z. st.requests.rows z.0) q ∙ (w ∙ kept))
        ]
        | inr (g, h, q) ↦ inr (g, ap (λ z. z.1) q, ap (λ z. st.requests.rows z.0) q ∙ kept)
      ]

  -- A decision is taken only as it is allowed, and then writes its one row; or it fails, and every
  -- row is as it was.
  pub decide-cases :
      (times : Times) (id : Text) (u : User) (change : ApprovalRequest → Answer ApprovalRequest)
      (s : S)
      → Outcome
          (st.requests.rows s)
          (λ r. (r0 : ApprovalRequest) × IsAllowed st times id u change s r0 r)
          (decide st json times id u change s)
  unfolding decide
  decide-cases times id u change s =
      let got = get_request st json id s in
      let f : ApprovalRequest → S → S × Answer ApprovalRequest = (λ ar s1.
        if not (can_be_approved_by times.asked u.id ar)
        then (s1, err denied)
        else and_then (can_act st.members u ar.team_id s1)
            (λ may s2. save_decision st json u change ar may s2)) in
      let (rows, members, answer) = get_request-cases st json law id s in
      elim answer [
        | inr (g, h) ↦
            let q = and_then-err got f g h in
            inr (g, ap (λ z. z.1) q, ap (λ z. st.requests.rows z.0) q ∙ rows)
        | inl (r0, h, m, n) ↦
            let q = and_then-ok got f (as_read r0) h in
            let able = can_be_approved_by times.asked u.id (as_read r0) in
            elim (Bool-cases able) [
              | inr off ↦
                  let k = q ∙ (rw off refl) in
                  inr (denied, ap (λ z. z.1) k, ap (λ z. st.requests.rows z.0) k ∙ rows)
              | inl on ↦
                  let k = q ∙ (rw on refl) in
                  elim (act-cases u change (as_read r0) got.0) [
                    | inr (g, j, w) ↦
                        inr (g, ap (λ z. z.1) k ∙ j, ap (λ z. st.requests.rows z.0) k ∙ (w ∙ rows))
                    | inl (r, j, w, (may, c)) ↦ inl (
                      r,
                      ap (λ z. z.1) k ∙ j,
                      ap (λ z. st.requests.rows z.0) k ∙ (w ∙ ap (put_row (λ x. x.id) r) rows),
                      (
                        r0,
                        allowed st times id u change s r0 r m n on
                            (subst (MayAct u r0.team_id) members may) c,
                      ),
                    )
                  ]
            ]
      ]
