-- ===== src/Server/Approval.antt =====
-- server/internal/app/domain/entity/approval_request.go: an approval request and its states. The
-- clock is a parameter, read where the code reads it; gorm's relations and its created_at and
-- updated_at columns are left out.
use to_toggle.Prelude.{
  ℕ, ◌+◌, ◌*◌, Bool, true, false, not, ◌&&◌, Option, none, some, Text, text_eq, is_empty, is_some,
  ltb, if◌then◌else◌,
}
use to_toggle.Server.Db.{Fault, invalid, not_pending, expired_request, Answer, ok, err}
pub mod Workflow
pub mod Reading
pub mod Decisions
pub mod Outcomes
pub mod Endings
pub mod Runs
pub mod Stats
pub mod Settings
pub mod Execution
pub mod Executed
pub mod Enabling
pub mod Sample
pub mod Gate
pub mod Filing
pub mod Creation
mod Tests
mod ExecutionTests

-- ApprovalActionType, with a text that is none of the constants.
pub data ActionType : Type 0 where
  toggle_create toggle_update toggle_delete toggle_enable toggle_disable toggle_rule : ActionType
  application_create application_update application_delete : ActionType
  secret_key_create secret_key_delete : ActionType
  other_action : Text → ActionType

pub data ApprovalStatus : Type 0 where
  pending approved rejected expired : ApprovalStatus

pub record ApprovalRequest : Type 0 where
  pub id : Text
  pub action_type : ActionType
  pub description : Text
  pub requested_by : Text
  pub team_id : Text
  pub application_id : Option Text
  pub toggle_id : Option Text
  pub status : ApprovalStatus
  pub action_data : Text
  pub actioned_by : Option Text
  pub actioned_at : Option ℕ
  pub rejection_reason : Option Text
  pub expires_at : ℕ
  pub requester_name : Option Text
  pub team_name : Option Text
  pub application_name : Option Text

abbrev pub is_pending : ApprovalStatus → Bool
is_pending pending = true
is_pending _ = false

-- NewApprovalRequest, given its ULID, the encoded data, the time and a week in the clock's unit.
unfoldable pub new_approval_request :
    Text
    → Text
    → ℕ
    → ℕ
    → ActionType
    → Text
    → Text
    → Text
    → Option Text
    → Option Text
    → ApprovalRequest
new_approval_request ulid data_bytes now week action_type description requested_by team_id
      application_id toggle_id =
    record {
      id = ulid;
      action_type = action_type;
      description = description;
      requested_by = requested_by;
      team_id = team_id;
      application_id = application_id;
      toggle_id = toggle_id;
      status = pending;
      action_data = data_bytes;
      actioned_by = none;
      actioned_at = none;
      rejection_reason = none;
      expires_at = now + week;
      requester_name = none;
      team_name = none;
      application_name = none;
    }

-- ApprovalRequest.IsExpired
abbrev pub is_expired : ℕ → ApprovalRequest → Bool
is_expired now ar = ltb ar.expires_at now

-- The readings of the clock in one decision: by CanBeApprovedBy, by the check of Approve or Reject,
-- and for the stamp.
pub record Times : Type 0 where
  pub asked : ℕ
  pub checked : ℕ
  pub stamped : ℕ

-- ApprovalRequest.Approve
unfoldable pub approve : Times → Text → ApprovalRequest → Answer ApprovalRequest
approve times approver_id ar =
    if not (is_pending ar.status)
    then err not_pending
    else if is_expired times.checked ar
    then err expired_request
    else ok (record ar {
      status = approved;
      actioned_by = some approver_id;
      actioned_at = some times.stamped;
    })

-- ApprovalRequest.Reject
unfoldable pub reject : Text → Times → Text → ApprovalRequest → Answer ApprovalRequest
reject reason times rejector_id ar =
    if not (is_pending ar.status)
    then err not_pending
    else if is_expired times.checked ar
    then err expired_request
    else ok (record ar {
      status = rejected;
      actioned_by = some rejector_id;
      actioned_at = some times.stamped;
      rejection_reason = if is_empty reason then ar.rejection_reason else some reason;
    })

-- ApprovalRequest.MarkAsExpired
unfoldable pub mark_as_expired : ℕ → ApprovalRequest → ApprovalRequest
mark_as_expired now ar =
    if is_pending ar.status && is_expired now ar then record ar { status = expired } else ar

-- ApprovalRequest.CanBeApprovedBy
unfoldable pub can_be_approved_by : ℕ → Text → ApprovalRequest → Bool
can_be_approved_by now user_id ar =
    if text_eq ar.requested_by user_id
    then false
    else if not (is_pending ar.status)
    then false
    else if is_expired now ar
    then false
    else true
