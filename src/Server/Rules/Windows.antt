-- ===== src/Server/Rules/Windows.antt =====
-- timeWindowPattern of server/internal/app/domain/entity/activation_rule.go, and what
-- totoggle_go/internal/strategy/timewindow.go parses.
use to_toggle.Prelude.{
  ℕ, ◌+◌, ◌*◌, ◌<◌, ◌≡◌, refl, sym, ap, ◌∙◌, subst, Bool, true, false, ◌&&◌, &&_iff, some, [], ◌∷◌,
  Text, codes, text_eq, trim_space, trim_left, is_space, ◌==◌, arith,
}
use to_toggle.Sdk.Strategy.Window.{
  is_digit, digit, time_window, in_window, parse_hhmm, parse_hhmm-lt, parse_after_hour,
  parse_minute, cut,
}
use to_toggle.Sdk.Strategy.Percentage.{Floats}
use to_toggle.Server.Db.{ok}
use to_toggle.Server.Toggles.{ActivationRule}
use to_toggle.Server.Rules.{
  is_hour, is_minute, is_time, matches_time_window, validate_value, Json, validate_rule,
}
use to_toggle.Server.Rules.Evaluable.{read_rule, validate_rule-parts}

is_digit-not_space : (c : ℕ) → is_digit c ≡ true → is_space c ≡ false
is_digit-not_space c h = ground (arith, h)

trim_space-ends :
    (a b c d e : ℕ)
    → is_space a ≡ false
    → is_space e ≡ false
    → trim_space (a ∷ b ∷ c ∷ d ∷ e ∷ []) ≡ a ∷ b ∷ c ∷ d ∷ e ∷ []
unfolding trim_space trim_left
trim_space-ends a b c d e ha he = rw (ha, he) refl

hour-bounds :
    (a b : ℕ)
    → is_hour a b ≡ true
    → (is_digit a ≡ true) × (is_digit b ≡ true) × (digit a * 10 + digit b < 24)
hour-bounds a b h = (ground (arith, h), ground (arith, h), ground (arith, h))

minute-bounds :
    (a b : ℕ)
    → is_minute a b ≡ true
    → (is_digit a ≡ true) × (is_digit b ≡ true) × (digit a * 10 + digit b < 60)
minute-bounds a b h = (ground (arith, h), ground (arith, h), ground (arith, h))

parse_time :
    (a b c d e : ℕ)
    → is_time a b c d e ≡ true
    → (m : ℕ) × (parse_hhmm (trim_space (a ∷ b ∷ c ∷ d ∷ e ∷ [])) ≡ some m)
unfolding parse_hhmm parse_after_hour parse_minute
parse_time a b c d e h =
    let (hh, r) = (&&_iff (is_hour a b) (c == b':' && is_minute d e)).0 h in
    let (hc, hm) = (&&_iff (c == b':') (is_minute d e)).0 r in
    let (da, db, lh) = hour-bounds a b hh in
    let (dd, de, lm) = minute-bounds d e hm in
    let trimmed = trim_space-ends a b c d e (is_digit-not_space a da) (is_digit-not_space e de) in
    (
      (digit a * 10 + digit b) * 60 + (digit d * 10 + digit e),
      ap parse_hhmm trimmed ∙ ground (arith, da, db, dd, de, lh, lm, hc),
    )

not_dash : (c : ℕ) → is_digit c ≡ true → (c == b'-') ≡ false
not_dash c h = ground (arith, h)

cut-dash :
    (a b c d e f : ℕ) (s : Text)
    → is_time a b c d e ≡ true
    → (f == b'-') ≡ true
    → cut b'-' (a ∷ b ∷ c ∷ d ∷ e ∷ f ∷ s) ≡ some (a ∷ b ∷ c ∷ d ∷ e ∷ [], s)
unfolding cut
cut-dash a b c d e f s h q =
    let (hh, r) = (&&_iff (is_hour a b) (c == b':' && is_minute d e)).0 h in
    let (hc, hm) = (&&_iff (c == b':') (is_minute d e)).0 r in
    let (da, db, lh) = hour-bounds a b hh in
    let (dd, de, lm) = minute-bounds d e hm in
    let colon : (c == b'-') ≡ false = ground (arith, hc) in
    rw (not_dash a da, not_dash b db, colon, not_dash d dd, not_dash e de, q) refl

time_window-known :
    (start end : ℕ) (left right : Text) (r : ActivationRule)
    → cut b'-' r.value ≡ some (left, right)
    → parse_hhmm (trim_space left) ≡ some start
    → parse_hhmm (trim_space right) ≡ some end
    → (now : ℕ) (key : Text) (has_key : Bool)
    → time_window now (read_rule r) key has_key ≡ in_window start end now
unfolding time_window
time_window-known start end left right r c p q now key has_key = rw (time_window, c, p, q) refl

-- A text that matches the pattern is a window for the client library.
abbrev IsWindow : Text → Type 0
IsWindow value =
    (left right : Text) × (start end : ℕ) × (cut b'-' value ≡ some (left, right))
    × (parse_hhmm (trim_space left) ≡ some start)
    × (parse_hhmm (trim_space right) ≡ some end)

matches_time_window-IsWindow : (value : Text) → matches_time_window value ≡ true → IsWindow value
unfolding matches_time_window
matches_time_window-IsWindow (a ∷ b ∷ c ∷ d ∷ e ∷ f ∷ g ∷ h ∷ i ∷ j ∷ k ∷ []) q =
    let (l, r) = (&&_iff (is_time a b c d e) (f == b'-' && is_time g h i j k)).0 q in
    let (m, n) = (&&_iff (f == b'-') (is_time g h i j k)).0 r in
    let (start, p) = parse_time a b c d e l in
    let (end, p') = parse_time g h i j k n in
    (
      a ∷ b ∷ c ∷ d ∷ e ∷ [],
      g ∷ h ∷ i ∷ j ∷ k ∷ [],
      start,
      end,
      cut-dash a b c d e f (g ∷ h ∷ i ∷ j ∷ k ∷ []) l m,
      p,
      p',
    )
matches_time_window-IsWindow _ q = cc

time_value :
    (floats : Floats) (r : ActivationRule)
    → r.kind ≡ codes "time"
    → validate_value floats r ≡ ok tt
    → matches_time_window r.value ≡ true
unfolding validate_value text_eq
time_value floats r n =
    subst
      (λ k.
        validate_value floats (record r { kind = k }) ≡ ok tt → matches_time_window r.value ≡ true)
      (sym n) (λ h. ground (arith, h))

-- A rule of the type `time` that ValidateRule accepts is a window of two times of the day for the
-- client library, which then evaluates it, at every minute, by that window.
pub validate_rule-time_window :
    (floats : Floats) (json : Json) (r : ActivationRule)
    → r.kind ≡ codes "time"
    → validate_rule floats json r ≡ ok tt
    → (start end : ℕ) × (start < 1440)
      × (end < 1440)
      × ((now : ℕ) (key : Text) (has_key : Bool)
          → time_window now (read_rule r) key has_key ≡ in_window start end now)
validate_rule-time_window floats json r n h =
    let (v, w) = validate_rule-parts floats json r h in
    let (left, right, start, end, c, p, q) =
      matches_time_window-IsWindow r.value (time_value floats r n v) in
    (
      start,
      end,
      parse_hhmm-lt (trim_space left) start p,
      parse_hhmm-lt (trim_space right) end q,
      time_window-known start end left right r c p q,
    )
