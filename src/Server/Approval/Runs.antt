-- ===== src/Server/Approval/Runs.antt =====
-- What holds of the requests through any sequence of decisions, withdrawals and expirations.
use to_toggle.Prelude.{
  ℕ, ◌≡◌, ◌≢◌, refl, sym, ap, ◌∙◌, subst, ◌⊎◌, inl, inr, Bool, true, false, not, ◌&&◌, some, List,
  [], ◌∷◌, Text, text_eq, In, All, leb, arith, if◌then◌else◌,
}
use to_toggle.Server.Db.{Answer-cases, ok, put_row, remove_row, update_rows, Distinct}
use to_toggle.Server.Db.Rows.{text_eq-≢, In-select, Distinct-In}
use to_toggle.Server.Db.Keep.{
  All-put_row, All-select, All-each, In-put_row, In-map, Distinct-put_row, Distinct-select,
  Distinct-map,
}
use to_toggle.Server.User.{User}
use to_toggle.Server.Approval.{
  pending, approved, rejected, expired, ApprovalRequest, Times, is_pending, reject,
}
use to_toggle.Server.Approval.Workflow.{
  Stores, Decoder, as_read, approve_request, reject_request, withdraw_request,
  mark_expired_requests,
}
use to_toggle.Server.Approval.Reading.{LawfulStores}
use to_toggle.Server.Approval.Outcomes.{approved_row, approve_request-cases}
use to_toggle.Server.Approval.Endings.{reject_request-rows, withdraw_request-rows}

-- A call of the workflow.
pub data Call : Type 0 where
  approves : Times → Text → User → Call
  rejects : Times → Text → User → Text → Call
  withdraws : Text → User → Call
  expires : ℕ → Call

-- Someone other than the one who asked has decided, if anyone has.
pub record FourEyes (r : ApprovalRequest) : Type 0 where
  pub decided_by :
      (r.status ≡ approved) ⊎ (r.status ≡ rejected)
      → (a : Text) × (r.actioned_by ≡ some a) × (a ≢ r.requested_by)

-- How a call changes the rows: one pending row gets a decision, or pending rows go or expire.
pub data Change (before : List ApprovalRequest) (after : List ApprovalRequest) : Type 0 where
  decided :
      (r0 r : ApprovalRequest)
      → In r0 before
      → r0.status ≡ pending
      → r.id ≡ r0.id
      → FourEyes r
      → after ≡ put_row (λ ar. ar.id) r before
      → Change before after
  withdrawn :
      (r0 : ApprovalRequest)
      → In r0 before
      → r0.status ≡ pending
      → after ≡ remove_row (λ ar. ar.id) r0.id before
      → Change before after
  lapsed :
      (p : ApprovalRequest → Bool)
      → after
        ≡ update_rows
            (λ ar. ar.id)
            (λ ar. is_pending ar.status && p ar)
            (λ ar. record ar { status = expired })
            before
      → Change before after
  same : after ≡ before → Change before after

reject_parts :
    (reason : Text) (times : Times) (u : User) (ar r : ApprovalRequest)
    → ar.requested_by ≢ u.id
    → reject reason times u.id (as_read ar) ≡ ok r
    → (r.id ≡ ar.id) × (r.actioned_by ≡ some u.id) × (r.requested_by ≡ ar.requested_by)
unfolding reject
reject_parts reason times u ar r n h = ground (arith, h)

-- A row that is not pending has another key than a row that is.
other_row :
    (b : List ApprovalRequest) (x r0 : ApprovalRequest)
    → Distinct (λ ar. ar.id) b
    → In x b
    → In r0 b
    → is_pending x.status ≡ false
    → r0.status ≡ pending
    → x.id ≢ r0.id
other_row b x r0 d n m p o e =
    let q = ap (λ r. r.status) (Distinct-In (λ ar. ar.id) b x r0 d n m e) ∙ o in
    ground (arith, p, q)

module _ {S : Type 0} (st : Stores S) (json : Decoder) where
  unfoldable pub run_call : Call → S → S
  run_call (approves times id u) s = (approve_request st json times id u s).0
  run_call (rejects times id u reason) s = (reject_request st json times id u reason s).0
  run_call (withdraws id u) s = (withdraw_request st json id u s).0
  run_call (expires now) s = (mark_expired_requests st json now s).0

  unfoldable pub run_calls : List Call → S → S
  unfolding run_call
  run_calls [] s = s
  run_calls (c ∷ cs) s = run_calls cs (run_call c s)

module _ {S : Type 0} (st : Stores S) (json : Decoder) (law : LawfulStores st) where
  expires-Change :
      (now : ℕ) (s : S)
      → Change (st.requests.rows s) (st.requests.rows (mark_expired_requests st json now s).0)
  unfolding mark_expired_requests
  expires-Change now s =
      let p : ApprovalRequest → Bool = (λ ar. is_pending ar.status && leb ar.expires_at now) in
      let f : ApprovalRequest → ApprovalRequest = (λ ar. record ar { status = expired }) in
      elim (Answer-cases (st.requests.update p f s).1) [
        | inl (u, e) ↦ lapsed (λ ar. leb ar.expires_at now) (law.requests_law.update_ok p f s e)
        | inr (g, h) ↦ same (law.requests_law.update_err p f s g h)
      ]

  run_call-Change :
      (c : Call) (s : S) → Change (st.requests.rows s) (st.requests.rows (run_call st json c s))
  unfolding run_call
  run_call-Change (approves times id u) s = elim (approve_request-cases st json law times id u s) [
    | inl (r0, done, may, live, w) ↦
        decided r0 (approved_row times u r0) may.row may.open_is refl
          (record { decided_by = λ e. (u.id, refl, (λ q. may.of_another (sym q))) }) w
    | inr (e, h, w) ↦ same w
  ]
  run_call-Change (rejects times id u reason) s =
      elim (reject_request-rows st json law times id u reason s) [
        | inl (r0, r, may, w) ↦
            let (i, a, b) = reject_parts reason times u r0 r may.of_another may.changed in
            decided r0 r may.row may.open_is i
              (record { decided_by = λ e. (u.id, a, (λ q. may.of_another (sym (q ∙ b)))) }) w
        | inr w ↦ same w
      ]
  run_call-Change (withdraws id u) s = elim (withdraw_request-rows st json law id u s) [
    | inl (r0, m, n, o, own, w) ↦
        withdrawn r0 m o (w ∙ ap (λ k. remove_row (λ ar. ar.id) k (st.requests.rows s)) (sym n))
    | inr w ↦ same w
  ]
  run_call-Change (expires now) s = expires-Change now s

lapsed-FourEyes :
    (c : Bool) (ar : ApprovalRequest)
    → FourEyes ar
    → FourEyes (if c then record ar { status = expired } else ar)
lapsed-FourEyes false ar k = k
lapsed-FourEyes true ar k = record { decided_by = λ h. elim h [ inl q ↦ cc | inr q ↦ cc ] }

Change-FourEyes : (b a : List ApprovalRequest) → Change b a → All FourEyes b → All FourEyes a
Change-FourEyes b a (decided r0 r m o i f w) h =
    subst (All FourEyes) (sym w) (All-put_row (λ ar. ar.id) FourEyes r b f h)
Change-FourEyes b a (withdrawn r0 m o w) h =
    subst (All FourEyes) (sym w) (All-select FourEyes (λ ar. not (text_eq ar.id r0.id)) b h)
Change-FourEyes b a (lapsed p w) h = subst (All FourEyes) (sym w) (
    All-each FourEyes FourEyes
      (λ ar. if is_pending ar.status && p ar then record ar { status = expired } else ar)
      (λ ar k. lapsed-FourEyes (is_pending ar.status && p ar) ar k) b h)
Change-FourEyes b a (same w) h = subst (All FourEyes) (sym w) h

Change-Distinct :
    (b a : List ApprovalRequest) → Change b a → Distinct (λ ar. ar.id) b → Distinct (λ ar. ar.id) a
Change-Distinct b a (decided r0 r m o i f w) h =
    subst (Distinct (λ ar. ar.id)) (sym w) (Distinct-put_row (λ ar. ar.id) r b h)
Change-Distinct b a (withdrawn r0 m o w) h =
    subst (Distinct (λ ar. ar.id)) (sym w)
      (Distinct-select (λ ar. ar.id) (λ ar. not (text_eq ar.id r0.id)) b h)
Change-Distinct b a (lapsed p w) h = subst (Distinct (λ ar. ar.id)) (sym w) (
    Distinct-map (λ ar. ar.id)
      (λ ar. if is_pending ar.status && p ar then record ar { status = expired } else ar)
      (λ ar. ground arith) b h)
Change-Distinct b a (same w) h = subst (Distinct (λ ar. ar.id)) (sym w) h

Change-kept :
    (b a : List ApprovalRequest) (x : ApprovalRequest)
    → Change b a
    → Distinct (λ ar. ar.id) b
    → In x b
    → is_pending x.status ≡ false
    → In x a
Change-kept b a x (decided r0 r m o i f w) d n p =
    subst (In x) (sym w)
      (In-put_row (λ ar. ar.id) r b x n (λ e. other_row b x r0 d n m p o (e ∙ i)))
Change-kept b a x (withdrawn r0 m o w) d n p = subst (In x) (sym w) (
    (In-select (λ ar. not (text_eq ar.id r0.id)) b x).1
      (n, ap not (text_eq-≢ x.id r0.id (other_row b x r0 d n m p o))))
Change-kept b a x (lapsed q w) d n p = subst (In x) (sym w) (
    subst
      (λ y. In y (
        update_rows (λ ar. ar.id) (λ ar. is_pending ar.status && q ar)
          (λ ar. record ar { status = expired }) b))
      (rw p refl)
      (In-map (λ ar. if is_pending ar.status && q ar then record ar { status = expired } else ar) b
        x n))
Change-kept b a x (same w) d n p = subst (In x) (sym w) n

module _ {S : Type 0} (st : Stores S) (json : Decoder) (law : LawfulStores st) where
  -- Over lawful tables, whatever calls are made, with any answers of the database, a request that is approved or
  -- rejected was decided by someone other than the one who asked, if that held of the rows at first.
  pub run_calls-FourEyes :
      (cs : List Call) (s : S)
      → All FourEyes (st.requests.rows s)
      → All FourEyes (st.requests.rows (run_calls st json cs s))
  unfolding run_calls
  run_calls-FourEyes [] s h = h
  run_calls-FourEyes (c ∷ cs) s h = run_calls-FourEyes cs (run_call st json c s) (
      Change-FourEyes (st.requests.rows s) (st.requests.rows (run_call st json c s))
        (run_call-Change st json law c s) h)

  -- A request that is no longer pending is history: no calls of the workflow change or remove its
  -- row. The tables are lawful and the primary keys distinct.
  pub run_calls_keep_history :
      (cs : List Call) (s : S) (r : ApprovalRequest)
      → Distinct (λ ar. ar.id) (st.requests.rows s)
      → In r (st.requests.rows s)
      → is_pending r.status ≡ false
      → In r (st.requests.rows (run_calls st json cs s))
  unfolding run_calls
  run_calls_keep_history [] s r d m p = m
  run_calls_keep_history (c ∷ cs) s r d m p =
      let change = run_call-Change st json law c s in
      let after = st.requests.rows (run_call st json c s) in
      run_calls_keep_history cs (run_call st json c s) r
        (Change-Distinct (st.requests.rows s) after change d)
        (Change-kept (st.requests.rows s) after r change d m p) p
