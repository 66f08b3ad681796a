-- ===== src/Server/Approval/Endings.antt =====
-- What RejectRequest and WithdrawRequest do to the rows of the requests.
use to_toggle.Prelude.{
  ◌≡◌, refl, ap, ◌∙◌, ◌⊎◌, inl, inr, not, Option, none, some, Text, text_eq, codes, ◌++◌,
  text_eq_iff, In, Bool-cases, if◌then◌else◌,
}
use to_toggle.Server.Db.{
  denied, not_pending, Answer, ok, err, and_then, and_then_cases, and_then-ok, and_then-err,
  put_row, remove_row,
}
use to_toggle.Server.User.{User}
use to_toggle.Server.Approval.{pending, ApprovalRequest, Times, is_pending, reject}
use to_toggle.Server.Approval.Workflow.{
  Stores, Decoder, AuditEvent, as_read, get_request, decide, record_audit, approval_rejected,
  approval_withdrawn, reject_request, withdraw_request, pending_key, delete_pending_key,
}
use to_toggle.Server.Approval.Reading.{LawfulStores, get_request-cases}
use to_toggle.Server.Approval.Decisions.{IsAllowed, decide-cases}
use to_toggle.Server.Approval.Outcomes.{record_audit_keeps, is_pending-pending}

module _ {S : Type 0} (st : Stores S) (json : Decoder) (law : LawfulStores st) where
  delete_pending_key_keeps :
      (id : Option Text) (s : S)
      → st.requests.rows (delete_pending_key st json id s).0 ≡ st.requests.rows s
  unfolding delete_pending_key
  delete_pending_key_keeps none s = refl
  delete_pending_key_keeps (some id) s = law.keys_delete id s

  -- Deleting the key of a request and recording what was done changes no request.
  finish_keeps :
      (key : Option Text) (event : AuditEvent) (text : Text) (ar : ApprovalRequest) (u : User)
      (s : S)
      → st.requests.rows
          (and_then
            (delete_pending_key st json key s)
            (λ done s2. (record_audit st json event text ar u s2, ok tt))).0
        ≡ st.requests.rows s
  finish_keeps key event text ar u s =
      let gone = delete_pending_key st json key s in
      elim (and_then_cases gone (λ done s2. (record_audit st json event text ar u s2, ok tt))) [
        | inl (d, e, q) ↦
            ap (λ z. st.requests.rows z.0) q
            ∙ (record_audit_keeps st json law event text ar u gone.0
                ∙ delete_pending_key_keeps key s)
        | inr (g, h, q) ↦ ap (λ z. st.requests.rows z.0) q ∙ delete_pending_key_keeps key s
      ]

  -- RejectRequest writes one row as it may, or no row.
  pub reject_request-rows :
      (times : Times) (id : Text) (u : User) (reason : Text) (s : S)
      → let rows' = st.requests.rows (reject_request st json times id u reason s).0 in
        ((r0 : ApprovalRequest) × (r : ApprovalRequest) × IsAllowed st times id u
            (reject reason times u.id)
            s
            r0
            r
          × (rows' ≡ put_row (λ ar. ar.id) r (st.requests.rows s)))
        ⊎ (rows' ≡ st.requests.rows s)
  unfolding reject_request
  reject_request-rows times id u reason s =
      let taken = decide st json times id u (reject reason times u.id) s in
      let text : ApprovalRequest → Text =
        (λ ar. codes "Rejected <b>" ++ (ar.description ++ codes "</b> request")) in
      let f : ApprovalRequest → S → S × Answer Unit = (λ ar s1.
        and_then (delete_pending_key st json (pending_key st json ar) s1)
          (λ done s2. (record_audit st json approval_rejected (text ar) ar u s2, ok tt))) in
      elim (decide-cases st json law times id u (reject reason times u.id) s) [
        | inr (e, h, w) ↦ inr (ap (λ z. st.requests.rows z.0) (and_then-err taken f e h) ∙ w)
        | inl (r, h, w, (r0, may)) ↦ inl (
          r0,
          r,
          may,
          ap (λ z. st.requests.rows z.0) (and_then-ok taken f r h)
              ∙ (finish_keeps (pending_key st json r) approval_rejected (text r) r u taken.0 ∙ w),
        )
      ]

  remove_keeps :
      (ar : ApprovalRequest) (id : Text) (u : User) (s : S)
      → let text = codes "Withdrew <b>" ++ (ar.description ++ codes "</b> request") in
        let x = and_then (delete_pending_key st json (pending_key st json ar) s) (λ done s2.
          and_then
            (st.requests.delete id s2)
            (λ gone s3. (record_audit st json approval_withdrawn text ar u s3, ok tt))) in
        (st.requests.rows x.0 ≡ remove_row (λ r. r.id) id (st.requests.rows s))
        ⊎ (st.requests.rows x.0 ≡ st.requests.rows s)
  remove_keeps ar id u s =
      let text = codes "Withdrew <b>" ++ (ar.description ++ codes "</b> request") in
      let key = delete_pending_key st json (pending_key st json ar) s in
      let kept = delete_pending_key_keeps (pending_key st json ar) s in
      let g : Unit → S → S × Answer Unit =
        (λ gone s3. (record_audit st json approval_withdrawn text ar u s3, ok tt)) in
      let f : Unit → S → S × Answer Unit = (λ done s2. and_then (st.requests.delete id s2) g) in
      elim (and_then_cases key f) [
        | inr (e, h, q) ↦ inr (ap (λ z. st.requests.rows z.0) q ∙ kept)
        | inl (d, h, q) ↦ elim (and_then_cases (st.requests.delete id key.0) g) [
          | inr (e, j, p) ↦ inr (
              ap (λ z. st.requests.rows z.0) (q ∙ p)
              ∙ (law.requests_law.delete_err id key.0 e j ∙ kept))
          | inl (d', j, p) ↦ inl (
              ap (λ z. st.requests.rows z.0) (q ∙ p)
              ∙ (record_audit_keeps st json law approval_withdrawn text ar u
                    (st.requests.delete id key.0).0
                  ∙ (law.requests_law.delete_ok id key.0 j ∙ ap (remove_row (λ r. r.id) id) kept)))
        ]
      ]

  -- WithdrawRequest removes the row of a pending request that the caller made, or no row.
  pub withdraw_request-rows :
      (id : Text) (u : User) (s : S)
      → let rows' = st.requests.rows (withdraw_request st json id u s).0 in
        ((r0 : ApprovalRequest) × In r0 (st.requests.rows s)
          × (r0.id ≡ id)
          × (r0.status ≡ pending)
          × (r0.requested_by ≡ u.id)
          × (rows' ≡ remove_row (λ r. r.id) id (st.requests.rows s)))
        ⊎ (rows' ≡ st.requests.rows s)
  unfolding withdraw_request
  withdraw_request-rows id u s =
      let got = get_request st json id s in
      let delete : ApprovalRequest → S → S × Answer Unit = (λ ar s1.
        and_then (delete_pending_key st json (pending_key st json ar) s1) (λ done s2.
          and_then (st.requests.delete id s2) (λ gone s3. (
            record_audit st json approval_withdrawn
                (codes "Withdrew <b>" ++ (ar.description ++ codes "</b> request")) ar u s3,
            ok tt,
          )))) in
      let f : ApprovalRequest → S → S × Answer Unit = (λ ar s1.
        if not (text_eq ar.requested_by u.id)
        then (s1, err denied)
        else if not (is_pending ar.status)
        then (s1, err not_pending)
        else delete ar s1) in
      let (rows, members, answer) = get_request-cases st json law id s in
      elim answer [
        | inr (g, h) ↦ inr (ap (λ z. st.requests.rows z.0) (and_then-err got f g h) ∙ rows)
        | inl (r0, h, m, n) ↦
            let q = and_then-ok got f (as_read r0) h in
            elim (Bool-cases (text_eq r0.requested_by u.id)) [
              | inr other ↦
                  let step : f (as_read r0) got.0 ≡ (got.0, err denied) = (rw other refl) in
                  inr (ap (λ z. st.requests.rows z.0) (q ∙ step) ∙ rows)
              | inl own ↦ elim (Bool-cases (is_pending r0.status)) [
                | inr done ↦
                    let step : f (as_read r0) got.0 ≡ (got.0, err not_pending) =
                      (rw (own, done) refl) in
                    inr (ap (λ z. st.requests.rows z.0) (q ∙ step) ∙ rows)
                | inl waits ↦
                    let step : f (as_read r0) got.0 ≡ delete (as_read r0) got.0 =
                      (rw (own, waits) refl) in
                    let k = ap (λ z. st.requests.rows z.0) (q ∙ step) in
                    elim (remove_keeps (as_read r0) id u got.0) [
                      | inr w ↦ inr (k ∙ (w ∙ rows))
                      | inl w ↦ inl (
                        r0,
                        m,
                        n,
                        is_pending-pending r0.status waits,
                        (text_eq_iff r0.requested_by u.id).0 own,
                        k ∙ (w ∙ ap (remove_row (λ r. r.id) id) rows),
                      )
                    ]
              ]
            ]
      ]
