-- ===== src/Server/Approval/Workflow.antt =====
-- server/internal/app/usecase/approval_usecase.go: ApproveRequest, RejectRequest, WithdrawRequest,
-- MarkExpiredRequests and GetApprovalStats, with the queries of
-- infrastructure/database/approval_request_repository.go and the record of audit_usecase.go.
-- encoding/json is a parameter. The audit use case is there, as in handler/init.go.
use to_toggle.Prelude.{
  ℕ, Bool, true, false, not, ◌&&◌, Option, none, some, List, [], ◌++◌, Text, codes, text_eq,
  is_empty, select, is_nil, any, length, leb, ◌||◌, if◌then◌else◌,
}
use to_toggle.Server.Db.{denied, not_pending, Answer, ok, err, and_then, Table, find_first}
use to_toggle.Server.Keys.{SecretKey}
use to_toggle.Server.User.{User, Team, TeamUser, can_act, visible_team_ids}
use to_toggle.Server.Approval.{
  toggle_create, toggle_update, toggle_delete, toggle_enable, toggle_disable, toggle_rule,
  application_create, application_update, application_delete, secret_key_create, secret_key_delete,
  other_action, ApprovalStatus, pending, approved, rejected, expired, ApprovalRequest, is_pending,
  Times, approve, reject, can_be_approved_by,
}

pub data AuditEvent : Type 0 where
  approval_requested approval_approved approval_rejected approval_withdrawn : AuditEvent

-- A row of audit_logs, less the columns that stay empty here, and the category, which the event
-- type determines.
pub record AuditLog : Type 0 where
  pub event_type : AuditEvent
  pub text : Text
  pub target : Text
  pub team_id : Option Text
  pub application_id : Option Text
  pub actor_id : Text
  pub actor_name : Text

-- The columns of toggles and applications that an audit target reads.
pub record Named : Type 0 where
  pub id : Text
  pub label : Text

-- The tables, over one database.
pub record Stores (S : Type 0) : Type 0 where
  pub requests : Table S ApprovalRequest
  pub members : Table S TeamUser
  pub keys : Table S SecretKey
  pub audit : Table S AuditLog
  pub toggles : Table S Named
  pub applications : Table S Named

-- The fields that json.Unmarshal finds in the data of an action.
pub record Decoder : Type 0 where
  pub secret_key_id : Text → Option Text
  pub toggle : Text → Text
  pub name : Text → Text

abbrev pub same_status : ApprovalStatus → ApprovalStatus → Bool
same_status pending pending = true
same_status approved approved = true
same_status rejected rejected = true
same_status expired expired = true
same_status _ _ = false

-- The columns that approvalRequestRepository.GetByID selects: the frozen names are not among them.
abbrev pub as_read : ApprovalRequest → ApprovalRequest
as_read ar = record ar { requester_name = none; team_name = none; application_name = none }

-- A slice of ids, which may be nil.
abbrev pub as_list : Option (List Text) → List Text
as_list none = []
as_list (some l) = l

abbrev pub option_label : {S : Type 0} → S × Answer Named → S × Text
option_label (s, ok n) = (s, n.label)
option_label (s, err e) = (s, [])

module _ {S : Type 0} (st : Stores S) (json : Decoder) where
  -- approvalRequestRepository.GetByID
  unfoldable pub get_request : Text → S → S × Answer ApprovalRequest
  unfolding and_then
  get_request id s =
      and_then (find_first st.requests (λ ar. text_eq ar.id id) s) (λ ar s'. (s', ok (as_read ar)))

  unfoldable pub label_of : Table S Named → Option Text → S → S × Text
  label_of t none s = (s, [])
  label_of t (some id) s = option_label (find_first t (λ n. text_eq n.id id) s)

  -- ApprovalUseCase.approvalRequestTarget
  unfoldable pub approval_request_target : ApprovalRequest → S → S × Text
  unfolding label_of
  approval_request_target ar s = elim ar.action_type [
    | toggle_create ↦ (s, json.toggle ar.action_data)
    | toggle_update ↦ label_of st.toggles ar.toggle_id s
    | toggle_delete ↦ label_of st.toggles ar.toggle_id s
    | toggle_enable ↦ label_of st.toggles ar.toggle_id s
    | toggle_disable ↦ label_of st.toggles ar.toggle_id s
    | toggle_rule ↦ label_of st.toggles ar.toggle_id s
    | application_create ↦ (s, json.name ar.action_data)
    | application_update ↦
        if is_empty (json.name ar.action_data)
        then label_of st.applications ar.application_id s
        else (s, json.name ar.action_data)
    | application_delete ↦ label_of st.applications ar.application_id s
    | secret_key_create ↦ label_of st.applications ar.application_id s
    | secret_key_delete ↦ label_of st.applications ar.application_id s
    | other_action a ↦ (s, [])
  ]

  -- AuditUseCase.record: a failure to write is only logged.
  unfoldable pub record_audit : AuditEvent → Text → ApprovalRequest → User → S → S
  unfolding approval_request_target
  record_audit event text ar actor s =
      let named = approval_request_target ar s in
      (st.audit.insert
        (record {
          event_type = event;
          text = text;
          target = named.1;
          team_id = some ar.team_id;
          application_id = ar.application_id;
          actor_id = actor.id;
          actor_name = actor.name;
        })
        named.0).0

  -- The first half of ApproveRequest and RejectRequest: the request is read, the checks are made,
  -- and it is saved as `change` leaves it.
  unfoldable pub save_decision :
      User
      → (ApprovalRequest → Answer ApprovalRequest)
      → ApprovalRequest
      → Bool
      → S
      → S × Answer ApprovalRequest
  unfolding and_then
  save_decision u change ar may s =
      if not may
      then (s, err denied)
      else and_then (s, change ar)
          (λ decided s1. and_then (st.requests.save decided s1) (λ done s2. (s2, ok decided)))

  unfoldable pub decide :
      Times
      → Text
      → User
      → (ApprovalRequest → Answer ApprovalRequest)
      → S
      → S × Answer ApprovalRequest
  unfolding and_then get_request can_act save_decision
  decide times id u change s = and_then (get_request id s) (λ ar s1.
      if not (can_be_approved_by times.asked u.id ar)
      then (s1, err denied)
      else and_then (can_act st.members u ar.team_id s1)
          (λ may s2. save_decision u change ar may s2))

  -- ApprovalUseCase.ApproveRequest
  unfoldable pub approve_request : Times → Text → User → S → S × Answer Unit
  unfolding and_then decide record_audit
  approve_request times id u s = and_then (decide times id u (approve times u.id) s) (λ ar s'. (
    record_audit approval_approved
        (codes "Approved <b>" ++ (ar.description ++ codes "</b> request")) ar u s',
    ok tt,
  ))

  -- The key that a request for a key created, if it is one.
  unfoldable pub pending_key : ApprovalRequest → Option Text
  pending_key ar = elim ar.action_type [
    | secret_key_create ↦ elim (json.secret_key_id ar.action_data) [
      | none ↦ none
      | some id ↦ if is_empty id then none else some id
    ]
    | _ ↦ none
  ]

  unfoldable pub delete_pending_key : Option Text → S → S × Answer Unit
  delete_pending_key none s = (s, ok tt)
  delete_pending_key (some id) s = st.keys.delete id s

  -- ApprovalUseCase.RejectRequest
  unfoldable pub reject_request : Times → Text → User → Text → S → S × Answer Unit
  unfolding and_then decide record_audit pending_key delete_pending_key
  reject_request times id u reason s =
      and_then (decide times id u (reject reason times u.id) s) (λ ar s1.
        and_then (delete_pending_key (pending_key ar) s1) (λ done s2. (
          record_audit approval_rejected
              (codes "Rejected <b>" ++ (ar.description ++ codes "</b> request")) ar u s2,
          ok tt,
        )))

  -- ApprovalUseCase.WithdrawRequest
  unfoldable pub withdraw_request : Text → User → S → S × Answer Unit
  unfolding and_then get_request record_audit pending_key delete_pending_key
  withdraw_request id u s = and_then (get_request id s) (λ ar s1.
      if not (text_eq ar.requested_by u.id)
      then (s1, err denied)
      else if not (is_pending ar.status)
      then (s1, err not_pending)
      else and_then (delete_pending_key (pending_key ar) s1) (λ done s2.
        and_then (st.requests.delete id s2) (λ gone s3. (
          record_audit approval_withdrawn
              (codes "Withdrew <b>" ++ (ar.description ++ codes "</b> request")) ar u s3,
          ok tt,
        ))))

  -- approvalRequestRepository.MarkExpiredRequests
  unfoldable pub mark_expired_requests : ℕ → S → S × Answer Unit
  mark_expired_requests now s =
      st.requests.update (λ ar. is_pending ar.status && leb ar.expires_at now)
        (λ ar. record ar { status = expired }) s

  -- approvalRequestRepository.GetRequestStats: the count of each status. `none` is the nil slice,
  -- and no team means every team.
  unfoldable pub get_request_stats : Option (List Text) → S → S × Answer (ApprovalStatus → ℕ)
  unfolding and_then
  get_request_stats team_ids s =
      let ids = as_list team_ids in
      and_then (st.requests.find (λ ar. is_nil ids || any (λ i. text_eq ar.team_id i) ids) s)
        (λ ars s'. (s', ok (λ status. length (select (λ ar. same_status ar.status status) ars))))

  -- ApprovalUseCase.GetApprovalStats
  unfoldable pub get_approval_stats :
      Table S User → Table S Team → User → S → S × Answer (ApprovalStatus → ℕ)
  unfolding and_then visible_team_ids get_request_stats
  get_approval_stats users teams u s =
      and_then (visible_team_ids users teams st.members u s) (λ (ids, unrestricted) s'.
        if unrestricted then get_request_stats none s' else get_request_stats ids s')
