-- ===== src/Server/Approval/Reading.antt =====
-- What the statements of a decision read and change.
use to_toggle.Prelude.{
  ◌≡◌, ◌≢◌, refl, ap, ◌∙◌, ◌⊎◌, inl, inr, Bool, true, List, Text, text_eq, text_eq_iff, In, arith,
  Bool-cases,
}
use to_toggle.Server.Db.{
  Fault, Answer, ok, err, and_then, and_then_cases, Lawful, put_row, find_first,
}
use to_toggle.Server.Db.Reads.{find_first_ok, find_first_keeps, find_first_state, find_first_listed}
use to_toggle.Server.User.{
  User, is_root, TeamUser, is_membership, is_user_approver, can_act, approver_answer,
  unless_missing,
}
use to_toggle.Server.Approval.{ApprovalRequest}
use to_toggle.Server.Approval.Workflow.{Stores, Decoder, as_read, get_request, AuditLog, Named}

-- The tables are lawful, and a statement on one leaves the others' rows.
pub record LawfulStores {S : Type 0} (st : Stores S) : Type 0 where
  pub requests_law : Lawful (λ ar. ar.id) st.requests
  pub members_find_ok :
      (p : TeamUser → Bool) (s : S) (l : List TeamUser)
      → (st.members.find p s).1 ≡ ok l
      → (m : TeamUser) → In m l
      → In m (st.members.rows s) × (p m ≡ true)
  pub members_find :
      (p : TeamUser → Bool) (s : S) → st.requests.rows (st.members.find p s).0 ≡ st.requests.rows s
  pub requests_find :
      (p : ApprovalRequest → Bool) (s : S)
      → st.members.rows (st.requests.find p s).0 ≡ st.members.rows s
  pub audit_insert :
      (r : AuditLog) (s : S) → st.requests.rows (st.audit.insert r s).0 ≡ st.requests.rows s
  pub toggles_find :
      (p : Named → Bool) (s : S) → st.requests.rows (st.toggles.find p s).0 ≡ st.requests.rows s
  pub applications_find :
      (p : Named → Bool) (s : S)
      → st.requests.rows (st.applications.find p s).0 ≡ st.requests.rows s
  pub keys_delete :
      (id : Text) (s : S) → st.requests.rows (st.keys.delete id s).0 ≡ st.requests.rows s

-- Who may act for a team: root, or a member of it who is an approver.
abbrev pub MayAct : User → Text → List TeamUser → Type 0
MayAct u team_id members =
    (is_root u ≡ true)
    ⊎ ((m : TeamUser) × In m members
        × (is_membership team_id u.id m ≡ true)
        × (m.is_approver ≡ true))

unless_missing-false : (e : Fault) → unless_missing e ≢ ok true
unless_missing-false e = ground arith

module _ {S : Type 0} (st : Stores S) (json : Decoder) (law : LawfulStores st) where
  pub save_changed-cases :
      (c : Answer ApprovalRequest) (s : S)
      → let x =
          and_then
            (s, c)
            (λ decided s1. and_then (st.requests.save decided s1) (λ done s2. (s2, ok decided))) in
        ((r : ApprovalRequest) × (x.1 ≡ ok r)
          × (c ≡ ok r)
          × (st.requests.rows x.0 ≡ put_row (λ ar. ar.id) r (st.requests.rows s)))
        ⊎ ((e : Fault) × (x.1 ≡ err e) × (st.requests.rows x.0 ≡ st.requests.rows s))
  unfolding and_then
  save_changed-cases (err e) s = inr (e, refl, refl)
  save_changed-cases (ok r) s =
      elim (and_then_cases (st.requests.save r s) (λ done s2. (s2, ok r))) [
        | inl (u, e, q) ↦ inl (
          r,
          ap (λ z. z.1) q,
          refl,
          ap (λ z. st.requests.rows z.0) q ∙ law.requests_law.save_ok r s e,
        )
        | inr (e, h, q) ↦ inr (
          e,
          ap (λ z. z.1) q,
          ap (λ z. st.requests.rows z.0) q ∙ law.requests_law.save_err r s e h,
        )
      ]

  find_request_keeps :
      (p : ApprovalRequest → Bool) (s : S)
      → st.requests.rows (find_first st.requests p s).0 ≡ st.requests.rows s
  find_request_keeps p s = find_first_keeps (λ ar. ar.id) st.requests law.requests_law p s

  -- GetByID reads a row as it is, but for the frozen names, and changes nothing.
  pub get_request-cases :
      (id : Text) (s : S)
      → let x = get_request st json id s in
        (st.requests.rows x.0 ≡ st.requests.rows s)
        × (st.members.rows x.0 ≡ st.members.rows s)
        × (((r0 : ApprovalRequest) × (x.1 ≡ ok (as_read r0))
              × In r0 (st.requests.rows s)
              × (r0.id ≡ id))
            ⊎ ((e : Fault) × (x.1 ≡ err e)))
  unfolding get_request
  get_request-cases id s =
      let p : ApprovalRequest → Bool = (λ ar. text_eq ar.id id) in
      let found = find_first st.requests p s in
      let apart = ap st.members.rows (find_first_state st.requests p s) ∙ law.requests_find p s in
      elim (and_then_cases found (λ ar s'. (s', ok (as_read ar)))) [
        | inl (r0, e, q) ↦
            let (m, c) = find_first_ok (λ ar. ar.id) st.requests law.requests_law p s r0 e in
            (
              ap (λ z. st.requests.rows z.0) q ∙ find_request_keeps p s,
              ap (λ z. st.members.rows z.0) q ∙ apart,
              inl (r0, ap (λ z. z.1) q, m, (text_eq_iff r0.id id).0 c),
            )
        | inr (e, h, q) ↦ (
          ap (λ z. st.requests.rows z.0) q ∙ find_request_keeps p s,
          ap (λ z. st.members.rows z.0) q ∙ apart,
          inr (e, ap (λ z. z.1) q),
        )
      ]

  approver_answer_ok :
      (x : S × Answer TeamUser)
      → (approver_answer x).1 ≡ ok true
      → (m : TeamUser) × (x.1 ≡ ok m) × (m.is_approver ≡ true)
  unfolding approver_answer
  approver_answer_ok (s, ok m) h = (m, refl, ground (arith, h))
  approver_answer_ok (s, err e) h = elim (unless_missing-false e h) [ ]

  approver_answer_state : (x : S × Answer TeamUser) → (approver_answer x).0 ≡ x.0
  unfolding approver_answer
  approver_answer_state (s, ok m) = refl
  approver_answer_state (s, err e) = refl

  pub can_act_keeps :
      (u : User) (team_id : Text) (s : S)
      → st.requests.rows (can_act st.members u team_id s).0 ≡ st.requests.rows s
  unfolding can_act is_user_approver
  can_act_keeps u team_id s =
      let found = find_first st.members (is_membership team_id u.id) s in
      let kept =
        ap st.requests.rows
          (approver_answer_state found ∙ find_first_state st.members (is_membership team_id u.id) s)
        ∙ law.members_find (is_membership team_id u.id) s in
      elim (Bool-cases (is_root u)) [ inl e ↦ rw e refl | inr e ↦ rw e kept ]

  pub can_act-MayAct :
      (u : User) (team_id : Text) (s : S)
      → (can_act st.members u team_id s).1 ≡ ok true
      → MayAct u team_id (st.members.rows s)
  unfolding can_act is_user_approver
  can_act-MayAct u team_id s h = elim (Bool-cases (is_root u)) [
    | inl e ↦ inl e
    | inr e ↦
        let p = is_membership team_id u.id in
        let (m, f, a) = approver_answer_ok (find_first st.members p s) (rw e at h) in
        let (l, g, i) = find_first_listed st.members p s m f in
        let (j, c) = law.members_find_ok p s l g m i in inr (m, j, c, a)
  ]
