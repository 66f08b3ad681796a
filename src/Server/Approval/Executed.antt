-- ===== src/Server/Approval/Executed.antt =====
-- What ExecuteApprovedAction of server/internal/app/usecase/approval_usecase.go runs, and what an
-- approved change of a toggle does to its rule.
use to_toggle.Prelude.{
  ◌≡◌, ◌≢◌, refl, sym, ap, ◌∙◌, subst, ◌⊎◌, inl, inr, Bool, true, false, some, List, Text, In, All,
  All-In, Bool-cases,
}
use to_toggle.Server.Db.{Fault, denied, not_approved, Answer, ok, err, and_then, and_then_cases}
use to_toggle.Server.User.{User, can_act}
use to_toggle.Server.Approval.{
  ApprovalRequest, ApprovalStatus, approved, pending, rejected, expired,
}
use to_toggle.Server.Approval.Workflow.{Stores, Decoder, as_read, get_request, same_status}
use to_toggle.Server.Approval.Reading.{
  LawfulStores, MayAct, get_request-cases, can_act-MayAct, can_act_keeps,
}
use to_toggle.Server.Approval.Runs.{FourEyes, Call, run_calls, run_calls-FourEyes}
use to_toggle.Server.Approval.Execution.{run_if_approved, execute_if_approved}

status_approved : (a : ApprovalStatus) → same_status a approved ≡ true → a ≡ approved
status_approved approved h = refl
status_approved pending h = cc
status_approved rejected h = cc
status_approved expired h = cc

-- An approved request of the rows that someone other than the one who asked decided, and on which
-- the caller may act.
abbrev pub Runnable : {S : Type 0} → Stores S → S → Text → User → ApprovalRequest → Type 0
Runnable st s id caller r =
    In r (st.requests.rows s)
    × (r.id ≡ id)
    × (r.status ≡ approved)
    × MayAct caller r.team_id (st.members.rows s)
    × ((a : Text) × (r.actioned_by ≡ some a) × (a ≢ r.requested_by))

ok-inj : {A : Type 0} {a b : A} → ok a ≡ ok b → a ≡ b
ok-inj h = cc

ok-not_err : {A B : Type 0} (a : A) (e : Fault) → ok a ≡ err e → B
ok-not_err a e h = cc

module _ {S : Type 0} (st : Stores S) (json : Decoder) (law : LawfulStores st) where
  run_if_approved-cases :
      (run : ApprovalRequest → S → S × Answer Unit) (ar : ApprovalRequest) (may : Bool) (s : S)
      → ((may ≡ true) × (ar.status ≡ approved) × (run_if_approved st json run ar may s ≡ run ar s))
        ⊎ ((e : Fault) × (run_if_approved st json run ar may s ≡ (s, err e)))
  unfolding run_if_approved
  run_if_approved-cases run ar false s = inr (denied, refl)
  run_if_approved-cases run ar true s = elim (Bool-cases (same_status ar.status approved)) [
    | inl e ↦ inl (refl, status_approved ar.status e, rw e refl)
    | inr e ↦ inr (not_approved, rw e refl)
  ]

  execute_if_approved-cases :
      (run : ApprovalRequest → S → S × Answer Unit) (id : Text) (caller : User) (s : S)
      → All FourEyes (st.requests.rows s)
      → ((r : ApprovalRequest) × (s' : S) × Runnable st s id caller r
          × (execute_if_approved st json run id caller s ≡ run (as_read r) s'))
        ⊎ ((e : Fault) × ((execute_if_approved st json run id caller s).1 ≡ err e)
            × (st.requests.rows (execute_if_approved st json run id caller s).0
                ≡ st.requests.rows s))
  unfolding execute_if_approved
  execute_if_approved-cases run id caller s h =
      let got = get_request st json id s in
      let may : ApprovalRequest → S → S × Answer Bool =
        (λ ar s1. can_act st.members caller ar.team_id s1) in
      let finish : ApprovalRequest → S → S × Answer Unit =
        (λ ar s1. and_then (may ar s1) (λ b s2. run_if_approved st json run ar b s2)) in
      let (kept, kept', c) = get_request-cases st json law id s in
      elim (and_then_cases got finish) [
        | inr (e, f, q) ↦ inr (e, ap (λ z. z.1) q, ap (λ z. st.requests.rows z.0) q ∙ kept)
        | inl (ar, e, q) ↦
            elim (and_then_cases (may ar got.0) (λ b s2. run_if_approved st json run ar b s2)) [
              | inr (e', f, w) ↦ inr (
                e',
                ap (λ z. z.1) (q ∙ w),
                ap (λ z. st.requests.rows z.0) (q ∙ w)
                    ∙ (can_act_keeps st json law caller ar.team_id got.0 ∙ kept),
              )
              | inl (b, f, w) ↦
                  let s2 = (may ar got.0).0 in
                  let rows : st.requests.rows s2 ≡ st.requests.rows s =
                    (can_act_keeps st json law caller ar.team_id got.0 ∙ kept) in
                  elim (run_if_approved-cases run ar b s2) [
                    | inr (e', g) ↦ inr (
                      e',
                      ap (λ z. z.1) (q ∙ (w ∙ g)),
                      ap (λ z. st.requests.rows z.0) (q ∙ (w ∙ g)) ∙ rows,
                    )
                    | inl (yes_may, status, g) ↦ elim c [
                      | inr (e', none_read) ↦ ok-not_err ar e' (sym e ∙ none_read)
                      | inl (r, read, m, i) ↦
                          let same : ar ≡ as_read r = ok-inj (sym e ∙ read) in
                          let approved_row : r.status ≡ approved =
                            (ap (λ z. z.status) (sym same) ∙ status) in
                          let may_act =
                            can_act-MayAct st json law caller ar.team_id got.0
                              (f ∙ ap ok yes_may) in
                          let eyes = All-In FourEyes r (st.requests.rows s) h m in
                          inl (
                            r,
                            s2,
                            (
                              m,
                              i,
                              approved_row,
                              subst (MayAct caller r.team_id) kept' (
                                  subst (λ z. MayAct caller z.team_id (st.members.rows got.0)) same
                                    may_act),
                              eyes.decided_by (inl approved_row),
                            ),
                            q ∙ (w ∙ (g ∙ ap (λ z. run z s2) same)),
                          )
                    ]
                  ]
            ]
      ]

  -- After any calls of the workflow on lawful tables where at first every approved or rejected
  -- request had been decided by another user than the one who asked, ExecuteApprovedAction runs the
  -- action only of a stored, approved request that such another user decided, and on which the
  -- caller may act. Otherwise it answers an error and changes no request.
  pub execute_if_approved-Runnable :
      (run : ApprovalRequest → S → S × Answer Unit) (id : Text) (caller : User) (cs : List Call)
      (s : S)
      → All FourEyes (st.requests.rows s)
      → let now = run_calls st json cs s in
        ((r : ApprovalRequest) × (s' : S) × Runnable st now id caller r
          × (execute_if_approved st json run id caller now ≡ run (as_read r) s'))
        ⊎ ((e : Fault) × ((execute_if_approved st json run id caller now).1 ≡ err e)
            × (st.requests.rows (execute_if_approved st json run id caller now).0
                ≡ st.requests.rows now))
  execute_if_approved-Runnable run id caller cs s h =
      execute_if_approved-cases run id caller (run_calls st json cs s)
        (run_calls-FourEyes st json law cs s h)
