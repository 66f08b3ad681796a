-- ===== src/Server/Approval/Outcomes.antt =====
-- Every branch of ApproveRequest, on the rows of the requests.
use to_toggle.Prelude.{
  ◌≡◌, refl, ap, ◌∙◌, subst, ◌⊎◌, inl, inr, Bool, true, false, Option, none, some, Text, text_eq,
  codes, ◌++◌, arith,
}
use to_toggle.Server.Db.{
  Fault, Answer, ok, err, and_then-ok, and_then-err, Table, put_row, find_first,
}
use to_toggle.Server.Db.Reads.{find_first_state}
use to_toggle.Server.User.{User}
use to_toggle.Server.Approval.{
  ApprovalStatus, pending, approved, ApprovalRequest, Times, is_expired, is_pending, approve,
}
use to_toggle.Server.Approval.Workflow.{
  Stores, Decoder, Named, AuditEvent, as_read, decide, record_audit, approve_request,
  approval_approved, approval_request_target, label_of, option_label,
}
use to_toggle.Server.Approval.Reading.{LawfulStores}
use to_toggle.Server.Approval.Decisions.{IsAllowed, decide-cases}

option_label_state : {S : Type 0} (x : S × Answer Named) → (option_label x).0 ≡ x.0
option_label_state (s, ok n) = refl
option_label_state (s, err e) = refl

pub is_pending-pending : (status : ApprovalStatus) → is_pending status ≡ true → status ≡ pending
is_pending-pending status h = ground arith

-- The row that an approval leaves: the names frozen at its creation are gone.
abbrev pub approved_row : Times → User → ApprovalRequest → ApprovalRequest
approved_row times u ar = record ar {
  status = approved;
  actioned_by = some u.id;
  actioned_at = some times.stamped;
  requester_name = none;
  team_name = none;
  application_name = none;
}

approve_ok :
    (times : Times) (u : User) (ar r : ApprovalRequest)
    → approve times u.id (as_read ar) ≡ ok r
    → (r ≡ approved_row times u ar) × (is_expired times.checked ar ≡ false)
unfolding approve
approve_ok times u ar r h = ground arith

module _ {S : Type 0} (st : Stores S) (json : Decoder) (law : LawfulStores st) where
  label_of_keeps :
      (t : Table S Named)
      → ((p : Named → Bool) (s : S) → st.requests.rows (t.find p s).0 ≡ st.requests.rows s)
      → (id : Option Text) (s : S)
      → st.requests.rows (label_of st json t id s).0 ≡ st.requests.rows s
  unfolding label_of
  label_of_keeps t keeps none s = refl
  label_of_keeps t keeps (some id) s =
      let p : Named → Bool = (λ n. text_eq n.id id) in
      ap st.requests.rows (option_label_state (find_first t p s) ∙ find_first_state t p s)
      ∙ keeps p s

  target_keeps :
      (ar : ApprovalRequest) (s : S)
      → st.requests.rows (approval_request_target st json ar s).0 ≡ st.requests.rows s
  unfolding approval_request_target
  target_keeps ar s =
      let a = label_of_keeps st.toggles law.toggles_find ar.toggle_id s in
      let b = label_of_keeps st.applications law.applications_find ar.application_id s in
      ground (arith, a, b)

  pub record_audit_keeps :
      (event : AuditEvent) (text : Text) (ar : ApprovalRequest) (u : User) (s : S)
      → st.requests.rows (record_audit st json event text ar u s) ≡ st.requests.rows s
  unfolding record_audit
  record_audit_keeps event text ar u s =
      law.audit_insert _ (approval_request_target st json ar s).0 ∙ target_keeps ar s

  -- Over lawful tables, ApproveRequest either succeeds or changes no request. It succeeds only on a row that is pending,
  -- that neither check of the clock finds expired, and that another user asked for, when the caller
  -- is root or an approver of its team; then this row alone changes, to approved by the caller, and
  -- its frozen names are gone.
  pub approve_request-cases :
      (times : Times) (id : Text) (u : User) (s : S)
      → let x = approve_request st json times id u s in
        ((r0 : ApprovalRequest) × (x.1 ≡ ok tt)
          × IsAllowed st times id u (approve times u.id) s r0 (approved_row times u r0)
          × (is_expired times.checked r0 ≡ false)
          × (st.requests.rows x.0
              ≡ put_row (λ ar. ar.id) (approved_row times u r0) (st.requests.rows s)))
        ⊎ ((e : Fault) × (x.1 ≡ err e) × (st.requests.rows x.0 ≡ st.requests.rows s))
  unfolding approve_request
  approve_request-cases times id u s =
      let taken = decide st json times id u (approve times u.id) s in
      let text : ApprovalRequest → Text =
        (λ ar. codes "Approved <b>" ++ (ar.description ++ codes "</b> request")) in
      let f : ApprovalRequest → S → S × Answer Unit =
        (λ ar s'. (record_audit st json approval_approved (text ar) ar u s', ok tt)) in
      elim (decide-cases st json law times id u (approve times u.id) s) [
        | inr (e, h, w) ↦
            let q = and_then-err taken f e h in
            inr (e, ap (λ z. z.1) q, ap (λ z. st.requests.rows z.0) q ∙ w)
        | inl (r, h, w, (r0, may)) ↦
            let q = and_then-ok taken f r h in
            let (same, live) = approve_ok times u r0 r may.changed in
            inl (
              r0,
              ap (λ z. z.1) q,
              subst (IsAllowed st times id u (approve times u.id) s r0) same may,
              live,
              ap (λ z. st.requests.rows z.0) q
                  ∙ (record_audit_keeps approval_approved (text r) r u taken.0
                      ∙ (w ∙ ap (λ y. put_row (λ ar. ar.id) y (st.requests.rows s)) same)),
            )
      ]
