-- ===== src/Server/Audit/Cursors.antt =====
-- The cursors of server/internal/app/handler/audit_handler.go: what encodeAuditCursor writes is read
-- back by decodeAuditCursor.
use to_toggle.Prelude.{ℕ, ◌≡◌, refl, ap, ◌∙◌, false, some, [], ◌∷◌, ◌++◌, Text, is_empty, All, ◌==◌}
use to_toggle.Server.Db.{ok}
use to_toggle.Server.Audit.{AuditLog}
use to_toggle.Server.Audit.Listing.{
  Cursor, CursorCodec, cut_at_bar, decode_audit_cursor, parse_cursor, cursor_after, cursor_of_raw,
  cursor_of_parts, cursor_at,
}

abbrev pub at_entry : AuditLog → Cursor
at_entry l = record { created_at = l.created_at; id = l.id }

-- base64 and the format of a time, as documented.
pub record LawfulCodec (codec : CursorCodec) : Type 0 where
  pub base64_back : (s : Text) → codec.decode_base64 (codec.encode_base64 s) ≡ some s
  pub base64_filled : (s : Text) → is_empty s ≡ false → is_empty (codec.encode_base64 s) ≡ false
  pub time_back : (t : ℕ) → codec.parse_time (codec.format_time t) ≡ some t
  pub time_plain : (t : ℕ) → All (λ c. (c == 124) ≡ false) (codec.format_time t)

filled_end : (s : Text) (c : ℕ) (t : Text) → is_empty (s ++ (c ∷ t)) ≡ false
filled_end [] c t = refl
filled_end (a ∷ s) c t = refl

cut_at_bar_lem :
    (s t : Text) → All (λ c. (c == 124) ≡ false) s → cut_at_bar (s ++ (124 ∷ t)) ≡ some (s, t)
unfolding cut_at_bar
cut_at_bar_lem [] t h = refl
cut_at_bar_lem (c ∷ s) t (n, h) = rw (n, cut_at_bar_lem s t h) refl

module _ (codec : CursorCodec) (law : LawfulCodec codec) where
  pub filled_cursor : (l : AuditLog) → is_empty (cursor_after codec l) ≡ false
  filled_cursor l =
      law.base64_filled (codec.format_time l.created_at ++ (124 ∷ l.id))
        (filled_end (codec.format_time l.created_at) 124 l.id)

  decode_audit_cursor-cursor_after :
      (l : AuditLog) → decode_audit_cursor codec (cursor_after codec l) ≡ some (at_entry l)
  unfolding decode_audit_cursor
  decode_audit_cursor-cursor_after l =
      ap (cursor_of_raw codec) (law.base64_back (codec.format_time l.created_at ++ (124 ∷ l.id)))
      ∙ ap (cursor_of_parts codec)
          (cut_at_bar_lem (codec.format_time l.created_at) l.id (law.time_plain l.created_at))
      ∙ ap (cursor_at codec l.id) (law.time_back l.created_at)

  -- The cursor of an entry is read back as its time and id.
  pub parse_cursor-cursor_after :
      (l : AuditLog) → parse_cursor codec (cursor_after codec l) ≡ ok (some (at_entry l))
  unfolding parse_cursor
  parse_cursor-cursor_after l = rw (filled_cursor l, decode_audit_cursor-cursor_after l) refl
