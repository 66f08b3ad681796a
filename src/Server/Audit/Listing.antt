-- ===== src/Server/Audit/Listing.antt =====
-- The lists of the audit log: auditLogRepository.List and ListActors of
-- server/internal/app/infrastructure/database/audit_log_repository.go, List and ListForApplication
-- of usecase/audit_usecase.go, and the paging of handler/audit_handler.go. The order of two ids in a
-- query is the database's, a parameter, and so are base64, the format of a time, and the integer
-- that strconv.Atoi reads (0 for a text that is none, and 0 here also stands for a negative one).
use to_toggle.Prelude.{
  ℕ, ◌+◌, Bool, true, false, ◌&&◌, ◌||◌, Option, none, some, List, [], ◌∷◌, ◌++◌, Text, text_eq,
  is_empty, take, length, ltb, ◌==◌, any, if◌then◌else◌,
}
use to_toggle.Server.Db.{database, invalid, Answer, ok, err, and_then, rename_error}
use to_toggle.Server.Audit.{AuditCategory, toggles, keys, access, approvals, no_category, AuditLog}

abbrev pub default_audit_page_size : ℕ
default_audit_page_size = 30

abbrev pub max_audit_page_size : ℕ
max_audit_page_size = 100

-- clampAuditLimit, and the switch of parseAuditPaging.
abbrev pub clamp_audit_limit : ℕ → ℕ
clamp_audit_limit limit =
    if limit == 0
    then default_audit_page_size
    else if ltb max_audit_page_size limit
    then max_audit_page_size
    else limit

pub record Cursor : Type 0 where
  pub created_at : ℕ
  pub id : Text

-- AuditLogFilter, less the cursor and the limit.
pub record AuditFilter : Type 0 where
  pub application_id : Text
  pub category : AuditCategory
  pub actor_id : Text
  pub created_after : Option ℕ

abbrev pub same_category : AuditCategory → AuditCategory → Bool
same_category toggles toggles = true
same_category keys keys = true
same_category access access = true
same_category approvals approvals = true
same_category no_category no_category = true
same_category _ _ = false

abbrev pub option_eq : Option Text → Text → Bool
option_eq none t = false
option_eq (some s) t = text_eq s t

abbrev pub keeps_application : Text → AuditLog → Bool
keeps_application app_id l = if is_empty app_id then true else option_eq l.application_id app_id

abbrev pub keeps_category : AuditCategory → AuditLog → Bool
keeps_category no_category l = true
keeps_category c l = same_category l.category c

abbrev pub keeps_actor : Text → AuditLog → Bool
keeps_actor actor_id l = if is_empty actor_id then true else text_eq l.actor_id actor_id

abbrev pub keeps_after : Option ℕ → AuditLog → Bool
keeps_after none l = true
keeps_after (some t) l = ltb t l.created_at

-- The conditions of auditLogRepository.List but for the cursor.
unfoldable pub keeps : AuditFilter → AuditLog → Bool
keeps f l =
    keeps_application f.application_id l
    && keeps_category f.category l
    && keeps_actor f.actor_id l
    && keeps_after f.created_after l

-- The condition of the cursor, where `lt` orders ids.
abbrev pub is_after_cursor : (Text → Text → Bool) → Option Cursor → AuditLog → Bool
is_after_cursor lt none l = true
is_after_cursor lt (some c) l =
    ltb l.created_at c.created_at || (l.created_at == c.created_at && lt l.id c.id)

-- The ordered queries on the table: a condition, "ORDER BY created_at DESC, id DESC" and a limit;
-- and the actors, as id and name, in the order of "ORDER BY created_at DESC".
pub record AuditQueries (S : Type 0) : Type 0 where
  pub id_lt : Text → Text → Bool
  pub newest : (AuditLog → Bool) → ℕ → S → S × Answer (List AuditLog)
  pub actors : S → S × Answer (List (Text × Text))

unfoldable pub distinct_actors : List Text → List (Text × Text) → List (Text × Text)
distinct_actors seen [] = []
distinct_actors seen ((id, name) ∷ rows) =
    let known = any (λ k. text_eq k id) seen in
    let rest = distinct_actors (if known then seen else id ∷ seen) rows in
    if known then rest else (id, name) ∷ rest

-- What decodes and encodes a cursor.
pub record CursorCodec : Type 0 where
  pub encode_base64 : Text → Text
  pub decode_base64 : Text → Option Text
  pub format_time : ℕ → Text
  pub parse_time : Text → Option ℕ

-- strings.SplitN at "|" into two.
unfoldable pub cut_at_bar : Text → Option (Text × Text)
cut_at_bar [] = none
cut_at_bar (c ∷ s) =
    let rest = cut_at_bar s in
    if c == 124 then some ([], s) else elim rest [ none ↦ none | some (a, b) ↦ some (c ∷ a, b) ]

module _ (codec : CursorCodec) where
  -- encodeAuditCursor
  abbrev pub encode_audit_cursor : Cursor → Text
  encode_audit_cursor c = codec.encode_base64 (codec.format_time c.created_at ++ (124 ∷ c.id))

  abbrev pub cursor_at : Text → Option ℕ → Option Cursor
  cursor_at id none = none
  cursor_at id (some t) = some (record { created_at = t; id = id })

  abbrev pub cursor_of_parts : Option (Text × Text) → Option Cursor
  cursor_of_parts none = none
  cursor_of_parts (some (time, id)) = cursor_at id (codec.parse_time time)

  abbrev pub cursor_of_raw : Option Text → Option Cursor
  cursor_of_raw none = none
  cursor_of_raw (some raw) = cursor_of_parts (cut_at_bar raw)

  -- decodeAuditCursor
  unfoldable pub decode_audit_cursor : Text → Option Cursor
  unfolding cut_at_bar
  decode_audit_cursor encoded = cursor_of_raw (codec.decode_base64 encoded)

  -- The cursor of parseAuditPaging: none for an empty text, an error for one that does not decode.
  unfoldable pub parse_cursor : Text → Answer (Option Cursor)
  unfolding decode_audit_cursor
  parse_cursor raw = if is_empty raw then ok none else elim (decode_audit_cursor raw) [
    | none ↦ err (invalid "invalid cursor")
    | some c ↦ ok (some c)
  ]

  abbrev pub cursor_after : AuditLog → Text
  cursor_after l = encode_audit_cursor (record { created_at = l.created_at; id = l.id })

  -- The cursor of the last entry of a page.
  unfoldable pub last_cursor : List AuditLog → Text
  last_cursor [] = []
  last_cursor (l ∷ []) = cursor_after l
  last_cursor (l ∷ m ∷ ls) = last_cursor (m ∷ ls)

  -- paginateAuditLogs
  unfoldable pub paginate_audit_logs : List AuditLog → ℕ → List AuditLog × Text
  unfolding last_cursor
  paginate_audit_logs logs limit =
      if ltb limit (length logs)
      then (take limit logs, last_cursor (take limit logs))
      else (logs, [])

  module _ {S : Type 0} (db : AuditQueries S) where
    -- AuditUseCase.List and ListForApplication, with auditLogRepository.List.
    unfoldable pub list_audit : AuditFilter → Option Cursor → ℕ → S → S × Answer (List AuditLog)
    unfolding keeps rename_error
    list_audit f cursor limit s = rename_error database (
        db.newest (λ l. keeps f l && is_after_cursor db.id_lt cursor l) (clamp_audit_limit limit) s)

    -- AuditUseCase.ListActors
    unfoldable pub list_actors : S → S × Answer (List (Text × Text))
    unfolding distinct_actors rename_error and_then
    list_actors s =
        rename_error database
          (and_then (db.actors s) (λ rows s1. (s1, ok (distinct_actors [] rows))))

    -- GetAuditLog and GetApplicationAudit, on the cursor and the limit of the request.
    unfoldable pub get_audit_log : AuditFilter → Text → ℕ → S → S × Answer (List AuditLog × Text)
    unfolding parse_cursor list_audit paginate_audit_logs and_then
    get_audit_log f raw limit s =
        and_then (s, parse_cursor raw)
          (λ cursor s1.
            and_then (list_audit f cursor (clamp_audit_limit limit + 1) s1)
              (λ logs s2. (s2, ok (paginate_audit_logs logs (clamp_audit_limit limit)))))
