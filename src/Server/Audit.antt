-- ===== src/Server/Audit.antt =====
-- server/internal/app/domain/entity/audit_log.go and the records of usecase/audit_usecase.go: the
-- audit log and how events get into it. ULIDs and the clock are parameters. A failure to write is
-- only logged, so an event answers nothing.
use to_toggle.Prelude.{ℕ, Bool, true, Option, none, some, List, [], ◌∷◌, Text, codes, text_eq}
use to_toggle.Server.Db.{Answer, ok, err, Table}
use to_toggle.Server.User.{User, Team, get_teams_by_user_id}
use to_toggle.Server.Approval.Filing.{TeamTables, get_teams_by_application_id}
pub mod Listing
pub mod Newest
pub mod Pages
pub mod Stops
pub mod Cursors
mod Tests

pub data AuditCategory : Type 0 where
  toggles keys access approvals no_category : AuditCategory

-- AuditEventType, with a text that is none of the constants.
pub data EventType : Type 0 where
  toggle_created toggle_deleted toggle_enabled toggle_disabled toggle_rule_set : EventType
  toggle_restored application_created application_deleted application_updated : EventType
  key_generated key_revoked team_created member_added member_removed user_created : EventType
  user_deleted user_status_changed user_password_reset password_reset_requested : EventType
  approval_approved approval_rejected approval_system_toggled approval_requested : EventType
  approval_withdrawn : EventType
  other_event : Text → EventType

-- AuditEventType.EventCategory
abbrev pub event_category : EventType → AuditCategory
event_category toggle_created = toggles
event_category toggle_deleted = toggles
event_category toggle_enabled = toggles
event_category toggle_disabled = toggles
event_category toggle_rule_set = toggles
event_category toggle_restored = toggles
event_category application_created = toggles
event_category application_updated = toggles
event_category application_deleted = toggles
event_category key_generated = keys
event_category key_revoked = keys
event_category team_created = access
event_category member_added = access
event_category member_removed = access
event_category user_created = access
event_category user_deleted = access
event_category user_status_changed = access
event_category user_password_reset = access
event_category password_reset_requested = access
event_category approval_approved = approvals
event_category approval_rejected = approvals
event_category approval_system_toggled = approvals
event_category approval_requested = approvals
event_category approval_withdrawn = approvals
event_category (other_event e) = no_category

pub record AuditLog : Type 0 where
  pub id : Text
  pub event_type : EventType
  pub category : AuditCategory
  pub text : Text
  pub target : Text
  pub team_id : Option Text
  pub application_id : Option Text
  pub before : Option Text
  pub after : Option Text
  pub actor_id : Text
  pub actor_name : Text
  pub created_at : ℕ

-- NewAuditLog, with the ULID and the time that the insertion gives it.
abbrev pub new_audit_log : Text → ℕ → EventType → Text → Text → Option Text → Text → Text → AuditLog
new_audit_log ulid now event_type text target team_id actor_id actor_name = record {
  id = ulid;
  event_type = event_type;
  category = event_category event_type;
  text = text;
  target = target;
  team_id = team_id;
  application_id = none;
  before = none;
  after = none;
  actor_id = actor_id;
  actor_name = actor_name;
  created_at = now;
}

module _ {S : Type 0} (logs : Table S AuditLog) (ulid : Text) (now : ℕ) where
  -- AuditUseCase.record
  unfoldable pub record_event :
      EventType
      → Text
      → Text
      → Option Text
      → Option Text
      → Option Text
      → Option Text
      → Option User
      → S
      → S
  record_event event_type text target team_id application_id before after none s = s
  record_event event_type text target team_id application_id before after (some actor) s =
      let entry = new_audit_log ulid now event_type text target team_id actor.id actor.name in
      (logs.insert
        (record entry { application_id = application_id; before = before; after = after }) s).0

  -- AuditUseCase.RecordWithApplication, and Record where there is no application.
  unfoldable pub record_with_application :
      EventType → Text → Text → Option Text → Option Text → Option User → S → S
  unfolding record_event
  record_with_application event_type text target team_id application_id actor s =
      record_event event_type text target team_id application_id none none actor s

  -- AuditUseCase.RecordSystem
  unfoldable pub record_system : EventType → Text → Text → S → S
  record_system event_type text target s =
      (logs.insert
        (new_audit_log ulid now event_type text target none (codes "system") (codes "System")) s).0

  -- AuditUseCase.firstTeamIDFor, on what the lookup answers.
  abbrev pub first_team_id : S × Answer (List Team) → S × Option Text
  first_team_id (s, err e) = (s, none)
  first_team_id (s, ok []) = (s, none)
  first_team_id (s, ok (x ∷ xs)) = (s, some x.id)

  module _ (db : TeamTables S) where
    -- AuditUseCase.RecordForApplication
    unfoldable pub record_for_application : EventType → Text → Text → Text → Option User → S → S
    unfolding record_event get_teams_by_application_id
    record_for_application event_type text target application_id actor s =
        let found = first_team_id (get_teams_by_application_id db application_id s) in
        record_event event_type text target found.1 (some application_id) none none actor found.0

    -- AuditUseCase.RecordRuleChange
    unfoldable pub record_rule_change : Text → Text → Text → Text → Text → Option User → S → S
    unfolding record_event get_teams_by_application_id
    record_rule_change text target application_id before after actor s =
        let found = first_team_id (get_teams_by_application_id db application_id s) in
        record_event toggle_rule_set text target found.1 (some application_id) (some before)
          (some after) actor found.0

    -- AuditUseCase.RecordForUser
    unfoldable pub record_for_user : EventType → Text → Text → Text → Option User → S → S
    unfolding record_with_application get_teams_by_user_id
    record_for_user event_type text target user_id actor s =
        let found = first_team_id (get_teams_by_user_id db.users db.teams db.members user_id s) in
        record_with_application event_type text target found.1 none actor found.0
