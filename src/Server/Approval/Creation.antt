-- ===== src/Server/Approval/Creation.antt =====
-- CreateApprovalRequest, CreateSuggestion and createApprovalRequestUnchecked of
-- server/internal/app/usecase/approval_usecase.go: how a request gets into approval_requests, with
-- the key that a request for a key creates. The encoding of the data of an action is a parameter.
use to_toggle.Prelude.{
  ℕ, Bool, true, false, not, Option, none, some, List, [], ◌++◌, Text, codes, text_eq,
  if◌then◌else◌,
}
use to_toggle.Server.Db.{
  denied, invalid, Answer, ok, err, and_then, rename_error, Table, find_first,
}
use to_toggle.Server.Keys.{SecretKey, CreateSecretKeyResponse, Fresh, create_secret_key}
use to_toggle.Server.User.{User, Team, can_read}
use to_toggle.Server.Approval.{ActionType, secret_key_create, ApprovalRequest, new_approval_request}
use to_toggle.Server.Approval.Workflow.{Stores, Decoder, Named, approval_requested, record_audit}
use to_toggle.Server.Approval.Filing.{TeamTables}
use to_toggle.Server.Teams.{TeamStatements, existing_team, existing_user}
pub mod Asking
pub mod Filed
pub mod Outcome
mod Tests

-- The arguments of a creation, with the data of the action.
pub record Proposal (D : Type 0) : Type 0 where
  pub action_type : ActionType
  pub description : Text
  pub requested_by : Text
  pub team_id : Text
  pub application_id : Option Text
  pub toggle_id : Option Text
  pub action_data : D

-- json.Marshal of the data of an action, and the data with its field secret_key_id set.
pub record Encoder (D : Type 0) : Type 0 where
  pub marshal : D → Option Text
  pub with_secret_key_id : D → Text → D

-- What a creation takes from outside: the ULID of the request, the clock, a week in its unit, the
-- hash of keys and a fresh key.
pub record Outside : Type 0 where
  pub ulid : Text
  pub now : ℕ
  pub week : ℕ
  pub hash : Text → Text
  pub fresh : Fresh

abbrev pub asks_for_key : ActionType → Bool
asks_for_key a = elim a [ secret_key_create ↦ true | _ ↦ false ]

-- An id that was given is that of a row.
unfoldable pub check_named :
    {S : Type 0} → Table S Named → Option Text → S → S × Answer (Option Named)
unfolding and_then rename_error find_first
check_named t none s = (s, ok none)
check_named t (some id) s =
    and_then (rename_error (invalid "not found") (find_first t (λ n. text_eq n.id id) s))
      (λ n s1. (s1, ok (some n)))

module _ {S : Type 0} (keys : Table S SecretKey) (out : Outside) where
  unfoldable pub make_key : Option Text → Text → S → S × Answer (Option CreateSecretKeyResponse)
  unfolding and_then rename_error create_secret_key
  make_key none by s = (s, err (invalid "application ID is required for secret key creation"))
  make_key (some app) by s =
      and_then
        (rename_error (invalid "failed to create pending secret key")
          (create_secret_key keys out.hash out.fresh (codes "API Access Key") app by false s))
        (λ made s1. (s1, ok (some made)))

  -- The pending key of a request for a key: CreatePendingSecretKey.
  unfoldable pub key_for :
      {D : Type 0} → Proposal D → S → S × Answer (Option CreateSecretKeyResponse)
  unfolding make_key
  key_for p s =
      if asks_for_key p.action_type
      then make_key p.application_id p.requested_by s
      else (s, ok none)

abbrev pub data_with_key : {D : Type 0} → Encoder D → D → Option CreateSecretKeyResponse → D
data_with_key enc d none = d
data_with_key enc d (some made) = enc.with_secret_key_id d made.secret_key.id

abbrev pub plain_secret_key : Option CreateSecretKeyResponse → Text
plain_secret_key none = []
plain_secret_key (some made) = made.plain_text_key

abbrev pub label_if_any : Option Named → Option Text
label_if_any none = none
label_if_any (some n) = some n.label

-- The request with the names that are frozen.
abbrev pub filled_request :
    {D : Type 0} → Outside → Proposal D → User → Team → Option Named → Text → ApprovalRequest
filled_request out p requester team app bytes =
    record (new_approval_request out.ulid bytes out.now out.week p.action_type p.description
      p.requested_by p.team_id p.application_id p.toggle_id) {
        requester_name = some requester.username;
        team_name = some team.name;
        application_name = label_if_any app;
      }

module _ {S : Type 0} (st : Stores S) (json : Decoder) (db : TeamTables S) (more : TeamStatements S)
    (out : Outside) {D : Type 0} (enc : Encoder D) where
  -- The request is stored and noted in the audit log. Its plain key goes to the caller alone.
  unfoldable pub store_request :
      User → Text → Option Text → (Text → ApprovalRequest) → S → S × Answer (ApprovalRequest × Text)
  unfolding and_then record_audit
  store_request requester plain none fill s = (s, err (invalid "action data"))
  store_request requester plain (some bytes) fill s =
      let ar = fill bytes in
      and_then (st.requests.insert ar s) (λ done s1. (
        record_audit st json approval_requested
            (codes "Requested: <b>" ++ (ar.description ++ codes "</b>")) ar requester s1,
        ok (ar, plain),
      ))

  -- After the checks of the requester and the team.
  unfoldable pub file_request : Proposal D → User → Team → S → S × Answer (ApprovalRequest × Text)
  unfolding and_then check_named key_for store_request
  file_request p requester team s =
      and_then (check_named st.applications p.application_id s) (λ app s1.
        and_then (check_named st.toggles p.toggle_id s1) (λ toggle s2.
          and_then (key_for st.keys out p s2) (λ made.
            store_request requester (plain_secret_key made)
              (enc.marshal (data_with_key enc p.action_data made))
              (filled_request out p requester team app))))

  unfoldable pub if_may_read :
      Proposal D → User → Team → Bool → S → S × Answer (ApprovalRequest × Text)
  unfolding file_request
  if_may_read p requester team may s =
      if not may then (s, err denied) else file_request p requester team s

  -- createApprovalRequestUnchecked, and CreateSuggestion
  unfoldable pub create_unchecked : Proposal D → S → S × Answer (ApprovalRequest × Text)
  unfolding if_may_read and_then can_read
  create_unchecked p s = and_then (existing_user db more p.requested_by s) (λ requester s1.
      and_then (existing_team db more p.team_id s1) (λ team s2.
        and_then (can_read db.users db.teams db.members requester p.team_id s2)
          (λ may. if_may_read p requester team may)))

  -- CreateApprovalRequest, on the answer of the settings whether the action requires an approval.
  unfoldable pub create_approval_request :
      (ActionType → S → S × Answer Bool) → Proposal D → S → S × Answer (ApprovalRequest × Text)
  unfolding create_unchecked and_then
  create_approval_request requires p s = and_then (requires p.action_type s) (λ required s1.
      if not required
      then (s1, err (invalid "this action does not require approval"))
      else create_unchecked p s1)
