-- ===== src/Server/Audit/Pages.antt =====
-- The pages of the audit log, as a browser follows their cursors: GetAuditLog and
-- GetApplicationAudit of server/internal/app/handler/audit_handler.go.
use to_toggle.Prelude.{
  ℕ, zero, suc, ◌+◌, ◌<◌, ◌≡◌, refl, sym, ap, ◌∙◌, subst, inl, inr, ◌↔◌, Bool, true, false, ◌&&◌,
  &&_iff, Option, none, some, List, [], ◌∷◌, ◌++◌, Text, is_empty, In, length, take, ltb,
  Bool-cases, arith, if◌then◌else◌,
}
use to_toggle.Server.Db.{
  Answer, ok, err, and_then, and_then-ok, database, rename_error, rename_error-found,
}
use to_toggle.Server.Db.Rows.{In-++_right, ++_assoc}
use to_toggle.Server.Audit.{AuditLog}
use to_toggle.Server.Audit.Listing.{
  clamp_audit_limit, Cursor, AuditFilter, keeps, is_after_cursor, AuditQueries, CursorCodec,
  parse_cursor, cursor_after, last_cursor, paginate_audit_logs, list_audit, get_audit_log,
}
use to_toggle.Server.Audit.Cursors.{LawfulCodec, at_entry, parse_cursor-cursor_after, filled_cursor}
use to_toggle.Server.Audit.Newest.{Sorted, Sorted-rest, In-rest, Sorted-unique, take_all, page_cut}

-- The second entry is older: it comes after a cursor at the first one.
abbrev pub Newer : (Text → Text → Bool) → AuditLog → AuditLog → Type 0
Newer lt a b = is_after_cursor lt (some (at_entry a)) b ≡ true

-- What SQL promises of the ordered query: the rows for which the condition holds, each once, newest
-- first, up to the limit. The order of ids is strict.
pub record LawfulQueries {S : Type 0} (rows : S → List AuditLog) (db : AuditQueries S)
    : Type 0 where
  pub irrefl : (a : Text) → db.id_lt a a ≡ false
  pub trans : (a b c : Text) → db.id_lt a b ≡ true → db.id_lt b c ≡ true → db.id_lt a c ≡ true
  pub newest_ok :
      (p : AuditLog → Bool) (n : ℕ) (s : S) (l : List AuditLog)
      → (db.newest p n s).1 ≡ ok l
      → (all_kept : List AuditLog) × Sorted (Newer db.id_lt) all_kept
        × ((x : AuditLog) → In x all_kept ↔ (In x (rows s) × (p x ≡ true)))
        × (l ≡ take n all_kept)
  pub newest_keeps : (p : AuditLog → Bool) (n : ℕ) (s : S) → rows (db.newest p n s).0 ≡ rows s

abbrev pub prepend_page : List AuditLog → Option (List AuditLog) → Option (List AuditLog)
prepend_page page none = none
prepend_page page (some rest) = some (page ++ rest)

module _ {S : Type 0} (codec : CursorCodec) (db : AuditQueries S) (f : AuditFilter)
    (limit : ℕ) where
  -- A page and those after it: an empty cursor ends them.
  abbrev pub follow :
      (Text → S → Option (List AuditLog))
      → S × Answer (List AuditLog × Text)
      → Option (List AuditLog)
  follow next (s, err e) = none
  follow next (s, ok (page, cursor)) =
      if is_empty cursor then some page else prepend_page page (next cursor s)

  follow-last :
      (next : Text → S → Option (List AuditLog)) (x : S × Answer (List AuditLog × Text))
      (page : List AuditLog)
      → x.1 ≡ ok (page, [])
      → follow next x ≡ some page
  follow-last next (s, ok (l, c)) page h = ground (arith, h)
  follow-last next (s, err e) page h = cc

  follow-more :
      (next : Text → S → Option (List AuditLog)) (x : S × Answer (List AuditLog × Text))
      (page : List AuditLog) (cursor : Text)
      → x.1 ≡ ok (page, cursor)
      → is_empty cursor ≡ false
      → follow next x ≡ prepend_page page (next cursor x.0)
  follow-more next (s, ok (l, c)) page cursor h filled = ground (arith, h, filled)
  follow-more next (s, err e) page cursor h filled = cc

  -- The entries of all pages from a cursor on, in at most so many requests.
  unfoldable pub walk : ℕ → Text → S → Option (List AuditLog)
  unfolding get_audit_log
  walk zero raw s = none
  walk (suc rounds) raw s = follow (walk rounds) (get_audit_log codec db f raw limit s)

not_below_zero : (n : ℕ) → n < 0 → ⊥
not_below_zero n l = omega arith

-- A page size and one more is not cut.
one_more : (n : ℕ) → n < 99 → clamp_audit_limit (suc n + 1) ≡ suc (suc n)
one_more n h = ground arith

kept_size : (limit : ℕ) → limit < 100 → (n : ℕ) × (n < 99) × (clamp_audit_limit limit ≡ suc n)
kept_size zero h = (29, omega arith, refl)
kept_size (suc n) h = (n, omega arith, ground arith)

last_cursor-end :
    (codec : CursorCodec) (pre : List AuditLog) (c : AuditLog)
    → last_cursor codec (pre ++ (c ∷ [])) ≡ cursor_after codec c
unfolding last_cursor
last_cursor-end codec [] c = refl
last_cursor-end codec (x ∷ []) c = refl
last_cursor-end codec (x ∷ y ∷ pre) c = last_cursor-end codec (y ∷ pre) c

module _ {S : Type 0} (codec : CursorCodec) (codec_law : LawfulCodec codec)
    (rows : S → List AuditLog) (db : AuditQueries S) (law : LawfulQueries rows db) where
  Newer-irrefl : (x : AuditLog) → Newer db.id_lt x x → ⊥
  Newer-irrefl x h = let e = law.irrefl x.id in ground (arith, h, e)

  Newer-trans : (x y z : AuditLog) → Newer db.id_lt x y → Newer db.id_lt y z → Newer db.id_lt x z
  Newer-trans x y z h k = let e = law.trans z.id y.id x.id in ground (arith, h, k, e)

  -- The entries that a request is about: those that the filter keeps, after the cursor.
  abbrev pub AreKept : AuditFilter → Option Cursor → S → List AuditLog → Type 0
  AreKept f o s l =
      Sorted (Newer db.id_lt) l
      × ((x : AuditLog)
          → In x l ↔ (In x (rows s) × ((keeps f x && is_after_cursor db.id_lt o x) ≡ true)))

  AreKept-unique :
      (f : AuditFilter) (o : Option Cursor) (s : S) (l m : List AuditLog)
      → AreKept f o s l
      → AreKept f o s m
      → l ≡ m
  AreKept-unique f o s l m (h, p) (k, q) =
      Sorted-unique (Newer db.id_lt) Newer-irrefl Newer-trans l m h k (λ z i. (q z).1 ((p z).0 i))
        (λ z i. (p z).1 ((q z).0 i))

  after_entry :
      (o : Option Cursor) (c x : AuditLog)
      → is_after_cursor db.id_lt o c ≡ true
      → Newer db.id_lt c x
      → is_after_cursor db.id_lt o x ≡ true
  after_entry none c x h k = refl
  after_entry (some k) c x h r = let e = law.trans x.id c.id k.id in ground (arith, h, r, e)

  -- The entries after a page are those after its last one.
  AreKept-rest :
      (f : AuditFilter) (o : Option Cursor) (s s' : S) (pre : List AuditLog) (c : AuditLog)
      (post : List AuditLog)
      → rows s' ≡ rows s
      → AreKept f o s (pre ++ (c ∷ post))
      → AreKept f (some (at_entry c)) s' post
  AreKept-rest f o s s' pre c post same (h, p) = (
    Sorted-rest (Newer db.id_lt) pre c post h,
    λ x.
        let rest = In-rest (Newer db.id_lt) Newer-irrefl Newer-trans pre c post x h in
        let here =
          (&&_iff (keeps f c) (is_after_cursor db.id_lt o c)).0
            ((p c).0 (In-++_right pre (c ∷ post) c (inl refl))).1 in
        (
          (λ m.
              let (i, older) = rest.1 m in
              let (stored, kept) = (p x).0 i in
              let (k, after) = (&&_iff (keeps f x) (is_after_cursor db.id_lt o x)).0 kept in
              (subst (In x) (sym same) stored, (&&_iff _ _).1 (k, older))),
          (λ (stored, kept).
              let (k, older) =
                (&&_iff (keeps f x) (is_after_cursor db.id_lt (some (at_entry c)) x)).0 kept in
              rest.0 (
                (p x).1
                    (subst (In x) same stored, (&&_iff _ _).1 (k, after_entry o c x here.1 older)),
                older,
              )),
        ),
  )

  module _
      (reads : (p : AuditLog → Bool) (n : ℕ) (s : S)
        → (l : List AuditLog) × ((db.newest p n s).1 ≡ ok l))
      (f : AuditFilter) (limit : ℕ) where
    abbrev page_of : ℕ → ℕ → Option Cursor → S → S × Answer (List AuditLog × Text)
    page_of m n o s =
        and_then
          (rename_error database (db.newest (λ x. keeps f x && is_after_cursor db.id_lt o x) n s))
          (λ logs s2. (s2, ok (paginate_audit_logs codec logs m)))

    get_audit_log-page :
        (raw : Text) (o : Option Cursor) (s : S) (l : List AuditLog) (n : ℕ)
        → n < 99
        → clamp_audit_limit limit ≡ suc n
        → parse_cursor codec raw ≡ ok o
        → AreKept f o s l
        → ((get_audit_log codec db f raw limit s).1
            ≡ ok (paginate_audit_logs codec (take (suc (suc n)) l) (suc n)))
          × (rows (get_audit_log codec db f raw limit s).0 ≡ rows s)
    unfolding get_audit_log list_audit
    get_audit_log-page raw o s l n small size parsed (h, q) =
        let whole : get_audit_log codec db f raw limit s ≡ page_of (suc n) (suc (suc n)) o s =
          and_then-ok (s, parse_cursor codec raw)
            (λ cursor.
              page_of (clamp_audit_limit limit) (clamp_audit_limit (clamp_audit_limit limit + 1))
                cursor)
            o parsed
          ∙ ap (λ m. page_of m (clamp_audit_limit (m + 1)) o s) size
          ∙ ap (λ m. page_of (suc n) m o s) (one_more n small) in
        let p : AuditLog → Bool = (λ x. keeps f x && is_after_cursor db.id_lt o x) in
        let (logs, found) = reads p (suc (suc n)) s in
        let (m, k, r, cut) = law.newest_ok p (suc (suc n)) s logs found in
        let same : m ≡ l = AreKept-unique f o s m l (k, r) (h, q) in
        let (named, kept) = rename_error-found database (db.newest p (suc (suc n)) s) logs found in
        let page =
          whole
          ∙ and_then-ok (rename_error database (db.newest p (suc (suc n)) s))
              (λ x s2. (s2, ok (paginate_audit_logs codec x (suc n)))) logs named in
        (
          ap (λ z. z.1) page
              ∙ ap (λ z. ok (paginate_audit_logs codec z (suc n)))
                  (cut ∙ ap (take (suc (suc n))) same),
          ap (λ z. rows z.0) page ∙ ap rows kept ∙ law.newest_keeps p (suc (suc n)) s,
        )

    walk-AreKept :
        (n : ℕ)
        → n < 99
        → clamp_audit_limit limit ≡ suc n
        → (rounds : ℕ) (raw : Text) (o : Option Cursor) (s : S) (l : List AuditLog)
        → parse_cursor codec raw ≡ ok o
        → AreKept f o s l
        → length l < rounds
        → walk codec db f limit rounds raw s ≡ some l
    unfolding walk paginate_audit_logs
    walk-AreKept n small size zero raw o s l parsed h few = elim (not_below_zero (length l) few) [ ]
    walk-AreKept n small size (suc rounds) raw o s l parsed h few =
        let (page, same) = get_audit_log-page raw o s l n small size parsed h in
        let next = walk codec db f limit rounds in
        let got = get_audit_log codec db f raw limit s in
        elim (Bool-cases (ltb (suc n) (length (take (suc (suc n)) l)))) [
          | inr short ↦
              let whole = take_all (suc n) l short in
              let cut : paginate_audit_logs codec (take (suc (suc n)) l) (suc n) ≡ (l, []) =
                rw (short, whole) refl in
              follow-last codec db f limit next got l (page ∙ ap ok cut)
          | inl long ↦
              let (pre, c, post, e, t, fewer) = page_cut n l long in
              let cut : paginate_audit_logs codec (take (suc (suc n)) l) (suc n)
                  ≡ (pre ++ (c ∷ []), cursor_after codec c) =
                rw (long, t, last_cursor-end codec pre c) refl in
              let rest =
                walk-AreKept n small size rounds (cursor_after codec c) (some (at_entry c)) got.0
                  post (parse_cursor-cursor_after codec codec_law c)
                  (AreKept-rest f o s got.0 pre c post same (subst (AreKept f o s) e h))
                  (omega arith) in
              follow-more codec db f limit next got (pre ++ (c ∷ [])) (cursor_after codec c)
                (page ∙ ap ok cut) (filled_cursor codec codec_law c)
              ∙ ap (prepend_page (pre ++ (c ∷ []))) rest
              ∙ ap some (++_assoc pre (c ∷ []) post ∙ sym e)
        ]

    -- For a page size under 100, the pages that follow the cursors from the first one on are, one
    -- after another, the entries that the filter keeps, each once and the newest first, and there
    -- are no more requests than entries and one. The ordered query and the codec of the cursor are
    -- lawful, no read fails, and nothing is written between the requests.
    pub walk_lists_all :
        limit < 100
        → (s : S)
        → (l : List AuditLog) × Sorted (Newer db.id_lt) l
          × ((x : AuditLog) → In x l ↔ (In x (rows s) × (keeps f x ≡ true)))
          × (walk codec db f limit (length l + 1) [] s ≡ some l)
    unfolding parse_cursor
    walk_lists_all small s =
        let p : AuditLog → Bool = (λ x. keeps f x && true) in
        let (page, found) = reads p 0 s in
        let (l, h, q, cut) = law.newest_ok p 0 s page found in
        let (n, below, size) = kept_size limit small in
        (
          l,
          h,
          (λ x.
              let (a, b) = q x in
              (
                (λ m. let (i, k) = a m in (i, ground (arith, k))),
                (λ (i, k). b (i, ground (arith, k))),
              )),
          walk-AreKept n below size (length l + 1) [] none s l refl (h, q) (omega arith),
        )
