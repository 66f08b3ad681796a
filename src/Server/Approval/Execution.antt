-- ===== src/Server/Approval/Execution.antt =====
-- The execution of an approved request in server/internal/app/usecase/approval_usecase.go: the checks
-- of ExecuteApprovedAction, and the actions on toggles and keys. What json.Unmarshal finds in the
-- data of an action is a parameter.
use to_toggle.Prelude.{ℕ, Bool, false, not, Option, none, some, List, Text, is_empty, if◌then◌else◌}
use to_toggle.Sdk.Strategy.Percentage.{Floats}
use to_toggle.Server.Db.{denied, not_approved, invalid, Answer, ok, err, and_then, Table}
use to_toggle.Server.Keys.{SecretKey, activate_and_rotate}
use to_toggle.Server.Rules.{Json}
use to_toggle.Server.Rules.Ephemeral.{Unicode}
use to_toggle.Server.Toggles.{Toggle, ActivationRule, create_toggle}
use to_toggle.Server.Toggles.Status.{bulk_update_enabled}
use to_toggle.Server.Toggles.Changes.{update_toggle_with_rule}
use to_toggle.Server.User.{User, can_act}
use to_toggle.Server.Approval.{ApprovalRequest, approved}
use to_toggle.Server.Approval.Workflow.{Stores, Decoder, Named, get_request, same_status}

-- The fields of the data of an action.
pub record ActionData : Type 0 where
  pub toggle : Text
  pub enabled : Bool
  pub has_activation_rule : Bool
  pub activation_rule : Option ActivationRule
  pub toggle_ids : List Text
  pub secret_key_id : Text

-- ApprovalRequest.GetActionDataAs, with an error for data that does not decode.
abbrev pub Reader : Type 0
Reader = Text → Option ActionData

abbrev pub with_data :
    {S : Type 0} → Option ActionData → (ActionData → S → S × Answer Unit) → S → S × Answer Unit
with_data none f s = (s, err (invalid "action data"))
with_data (some d) f s = f d s

abbrev pub with_id : {S : Type 0} → Option Text → (Text → S → S × Answer Unit) → S → S × Answer Unit
with_id none f s = (s, err (invalid "ID is required"))
with_id (some i) f s = f i s

module _ {S : Type 0} (read : Reader) (t : Table S Toggle) where
  -- ApprovalUseCase.executeToggleCreateAction
  unfoldable pub execute_toggle_create :
      Table S Named → (ℕ → Text) → ApprovalRequest → S → S × Answer Unit
  unfolding create_toggle
  execute_toggle_create applications ulids ar s =
      with_data (read ar.action_data)
        (λ d s1.
          if is_empty d.toggle
          then (s1, err (invalid "toggle path is required"))
          else with_id ar.application_id
              (λ app s2. create_toggle t applications ulids d.toggle false app s2) s1)
        s

  -- ApprovalUseCase.executeToggleUpdateAction
  unfoldable pub execute_toggle_update :
      Floats → Json → Unicode → ApprovalRequest → S → S × Answer Unit
  unfolding update_toggle_with_rule and_then
  execute_toggle_update floats json u ar s =
      with_data (read ar.action_data)
        (λ d s1.
          with_id ar.toggle_id
            (λ i s2.
              with_id ar.application_id
                (λ app s3.
                  and_then
                    (update_toggle_with_rule t floats json u i d.enabled d.has_activation_rule
                      d.activation_rule app s3)
                    (λ x s4. (s4, ok tt)))
                s2)
            s1)
        s

  -- ApprovalUseCase.executeBulkToggleAction
  unfoldable pub execute_bulk_toggle : ApprovalRequest → S → S × Answer Unit
  unfolding bulk_update_enabled
  execute_bulk_toggle ar s =
      with_data (read ar.action_data)
        (λ d s1.
          with_id ar.application_id (λ app s2. bulk_update_enabled t d.toggle_ids d.enabled app s2)
            s1)
        s

-- ApprovalUseCase.executeSecretKeyCreateAction
unfoldable pub execute_secret_key_create :
    {S : Type 0} → Reader → Table S SecretKey → ApprovalRequest → S → S × Answer Unit
unfolding activate_and_rotate
execute_secret_key_create read keys ar s =
    with_data (read ar.action_data)
      (λ d s1.
        with_id ar.application_id
          (λ app s2.
            if is_empty d.secret_key_id
            then (s2, err (invalid "pending secret key not found for this request"))
            else activate_and_rotate keys d.secret_key_id app s2)
          s1)
      s

module _ {S : Type 0} (st : Stores S) (json : Decoder) where
  unfoldable pub run_if_approved :
      (ApprovalRequest → S → S × Answer Unit) → ApprovalRequest → Bool → S → S × Answer Unit
  run_if_approved run ar may s =
      if not may
      then (s, err denied)
      else if not (same_status ar.status approved)
      then (s, err not_approved)
      else run ar s

  -- The checks of ApprovalUseCase.ExecuteApprovedAction, before the action that it chooses.
  unfoldable pub execute_if_approved :
      (ApprovalRequest → S → S × Answer Unit) → Text → User → S → S × Answer Unit
  unfolding get_request can_act run_if_approved and_then
  execute_if_approved run id caller s = and_then (get_request st json id s) (λ ar s1.
      and_then (can_act st.members caller ar.team_id s1) (λ may s2. run_if_approved run ar may s2))
