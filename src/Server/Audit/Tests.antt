-- ===== src/Server/Audit/Tests.antt =====
-- Pages of a small audit log. Its table is kept the newest first, so the ordered query selects.
use to_toggle.Prelude.{
  ◌+◌, ℕ, zero, suc, ◌≤◌, ◌≡◌, refl, ◌↔◌, Bool, true, false, none, some, List, [], ◌∷◌, Text, codes,
  text_eq, In, All, length, take, select, ltb, ◌==◌, arith,
}
use to_toggle.Server.Db.{ok}
use to_toggle.Server.Db.Rows.{In-select}
use to_toggle.Server.Audit.{AuditLog, new_audit_log, toggle_enabled, no_category}
use to_toggle.Server.Audit.Listing.{
  AuditFilter, keeps, AuditQueries, CursorCodec, get_audit_log, distinct_actors,
}
use to_toggle.Server.Audit.Cursors.{LawfulCodec}
use to_toggle.Server.Audit.Newest.{Sorted, Sorted-select}
use to_toggle.Server.Audit.Pages.{Newer, LawfulQueries, walk, walk_lists_all}
use to_toggle.Server.Audit.Stops.{get_audit_log_stops}

-- The order of texts by their first code point is enough here.
abbrev first_lt : Text → Text → Bool
first_lt [] b = false
first_lt (x ∷ a) [] = false
first_lt (x ∷ a) (y ∷ b) = ltb x y

first_lt_irrefl : (a : Text) → first_lt a a ≡ false
first_lt_irrefl [] = refl
first_lt_irrefl (x ∷ a) = ground arith

first_lt_trans : (a b c : Text) → first_lt a b ≡ true → first_lt b c ≡ true → first_lt a c ≡ true
first_lt_trans [] b c h k = cc
first_lt_trans (x ∷ a) [] c h k = cc
first_lt_trans (x ∷ a) (y ∷ b) [] h k = cc
first_lt_trans (x ∷ a) (y ∷ b) (z ∷ c) h k = ground (arith, h, k)

abbrev Kept : Type 0
Kept = (l : List AuditLog) × Sorted (Newer first_lt) l

abbrev queries : AuditQueries Kept
queries = record {
  id_lt = first_lt;
  newest = λ p n s. (s, ok (take n (select p s.0)));
  actors = λ s. (s, ok []);
}

queries-LawfulQueries : LawfulQueries (λ s. s.0) queries
queries-LawfulQueries = record {
  irrefl = first_lt_irrefl;
  trans = first_lt_trans;
  newest_ok = λ p n s l e.
      (select p s.0, Sorted-select (Newer first_lt) p s.0 s.1, (λ x. In-select p s.0 x), cc);
  newest_keeps = λ p n s. refl;
}

-- Unary times, and a base64 that keeps its text.
abbrev ones : ℕ → Text
ones zero = []
ones (suc n) = 49 ∷ ones n

abbrev codec : CursorCodec
codec = record {
  encode_base64 = λ s. s;
  decode_base64 = λ s. some s;
  format_time = ones;
  parse_time = λ s. some (length s);
}

length-ones : (t : ℕ) → length (ones t) ≡ t
length-ones zero = refl
length-ones (suc t) = omega (arith, length-ones t)

ones-plain : (t : ℕ) → All (λ c. (c == 124) ≡ false) (ones t)
ones-plain zero = tt
ones-plain (suc t) = (refl, ones-plain t)

codec-LawfulCodec : LawfulCodec codec
codec-LawfulCodec = record {
  base64_back = λ s. refl;
  base64_filled = λ s h. h;
  time_back = λ t. simp (length-ones t);
  time_plain = ones-plain;
}

abbrev entry : ℕ → ℕ → AuditLog
entry id time = new_audit_log (id ∷ []) time toggle_enabled [] [] none (codes "u") (codes "Ana")

abbrev three : Kept
three = ((entry 2 9 ∷ entry 1 9 ∷ entry 3 4 ∷ []), ((refl, (refl, tt)), ((refl, tt), (tt, tt))))

abbrev everything : AuditFilter
everything = record {
  application_id = [];
  category = no_category;
  actor_id = [];
  created_after = none;
}

walk_lists_all_example :
    (l : List AuditLog) × Sorted (Newer first_lt) l
    × ((x : AuditLog) → In x l ↔ (In x three.0 × (keeps everything x ≡ true)))
    × (walk codec queries everything 2 (length l + 1) [] three ≡ some l)
walk_lists_all_example =
    walk_lists_all codec codec-LawfulCodec (λ s. s.0) queries queries-LawfulQueries
      (λ p n s. (take n (select p s.0), refl)) everything 2 (omega arith) three

large-runs : (get_audit_log codec queries everything [] 100 three).1 ≡ ok (three.0, [])
unfolding get_audit_log keeps
large-runs = refl

get_audit_log_stops_example : (length three.0 ≤ 100) × (◌≡◌ {A = Text} [] [])
get_audit_log_stops_example =
    get_audit_log_stops codec (λ s. s.0) queries queries-LawfulQueries everything [] 100 three
      three.0 [] (omega arith) large-runs

-- Pages of two: the second one ends the walk.
two_pages : walk codec queries everything 2 2 [] three ≡ some three.0
unfolding walk get_audit_log keeps
two_pages = refl

-- Of two rows of an actor, the first one gives the name.
one_of_each :
    distinct_actors [] ((codes "u", codes "Ana") ∷ (codes "u", codes "Anna") ∷ [])
    ≡ (codes "u", codes "Ana") ∷ []
unfolding distinct_actors text_eq
one_of_each = refl
