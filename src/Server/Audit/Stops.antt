-- ===== src/Server/Audit/Stops.antt =====
-- Where the pages of GetAuditLog and GetApplicationAudit in
-- server/internal/app/handler/audit_handler.go stop.
use to_toggle.Prelude.{
  ℕ, zero, suc, ◌+◌, ◌≤◌, ◌≡◌, sym, ap, ◌∙◌, subst, Bool, ◌&&◌, List, [], ◌∷◌, Text, length, take,
  arith,
}
use to_toggle.Server.Db.{Answer, ok, and_then, and_then_ok, database, rename_error_ok}
use to_toggle.Server.Audit.{AuditLog}
use to_toggle.Server.Audit.Listing.{
  clamp_audit_limit, AuditFilter, keeps, is_after_cursor, AuditQueries, CursorCodec, parse_cursor,
  paginate_audit_logs, list_audit, get_audit_log,
}
use to_toggle.Server.Audit.Pages.{LawfulQueries}

ok_parts :
    (l m : List AuditLog) (a b : Text)
    → ◌≡◌ {A = Answer (List AuditLog × Text)} (ok (l, a)) (ok (m, b))
    → (l ≡ m) × (a ≡ b)
ok_parts l m a b h = (cc, cc)

length-take : (n : ℕ) (xs : List AuditLog) → length (take n xs) ≤ n
length-take zero xs = omega arith
length-take (suc n) [] = omega arith
length-take (suc n) (x ∷ xs) = omega (arith, length-take n xs)

full_size : (limit : ℕ) → 100 ≤ limit → clamp_audit_limit limit ≡ 100
full_size limit h = ground arith

paginate_audit_logs-short :
    (codec : CursorCodec) (m : ℕ) (logs : List AuditLog)
    → length logs ≤ m
    → paginate_audit_logs codec logs m ≡ (logs, [])
unfolding paginate_audit_logs
paginate_audit_logs-short codec m logs h = ground arith

module _ {S : Type 0} (codec : CursorCodec) (rows : S → List AuditLog) (db : AuditQueries S)
    (law : LawfulQueries rows db) where
  -- A request for pages of 100 entries or more is answered by at most 100 entries and no cursor,
  -- however many there are, if it is answered and the query is lawful.
  pub get_audit_log_stops :
      (f : AuditFilter) (raw : Text) (limit : ℕ) (s : S) (page : List AuditLog) (next : Text)
      → 100 ≤ limit
      → (get_audit_log codec db f raw limit s).1 ≡ ok (page, next)
      → (length page ≤ 100) × (next ≡ [])
  unfolding get_audit_log list_audit
  get_audit_log_stops f raw limit s page next large h =
      let size = full_size limit large in
      let m = clamp_audit_limit limit + 1 in
      let n = clamp_audit_limit m in
      let (cursor, e, whole, h') =
        and_then_ok (s, parse_cursor codec raw)
          (λ o s1.
            and_then (list_audit codec db f o m s1)
              (λ logs s2. (s2, ok (paginate_audit_logs codec logs (clamp_audit_limit limit)))))
          (page, next) h in
      let (logs, listed, whole', h'') =
        and_then_ok (list_audit codec db f cursor m s)
          (λ logs s2. (s2, ok (paginate_audit_logs codec logs (clamp_audit_limit limit))))
          (page, next) h' in
      let p : AuditLog → Bool = (λ x. keeps f x && is_after_cursor db.id_lt cursor x) in
      let (found, same) = rename_error_ok database (db.newest p n s) logs listed in
      let (l, k, q, cut) = law.newest_ok p n s logs found in
      let full : n ≡ 100 = ap (λ z. clamp_audit_limit (z + 1)) size in
      let few : length logs ≤ 100 =
        subst (λ z. length z ≤ 100) (sym (cut ∙ ap (λ z. take z l) full)) (length-take 100 l) in
      let answer : ok (logs, []) ≡ ok (page, next) =
        (sym (
            ap ok (
              ap (paginate_audit_logs codec logs) size
              ∙ paginate_audit_logs-short codec 100 logs few))
          ∙ h'') in
      let (same_page, same_next) = ok_parts logs page [] next answer in
      (subst (λ z. length z ≤ 100) same_page few, sym same_next)
