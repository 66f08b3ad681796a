-- ===== src/Sdk/Strategy/Window.antt =====
-- totoggle_go/internal/strategy/timewindow.go: a daily window "HH:mm-HH:mm". The clock is an
-- argument, as the minute of the day; `parse_hhmm` is time.Parse of package time at "15:04".
use to_toggle.Prelude.{
  ℕ, ◌+◌, ◌-◌, ◌*◌, ◌%◌, ◌<◌, ◌≡◌, Bool, false, ◌&&◌, ◌||◌, Option, none, some, [], ◌∷◌, Text,
  trim_space, ltb, leb, ◌==◌, Option-cases, inl, inr, arith, if◌then◌else◌,
}
use to_toggle.Sdk.Rule.{ActivationRule}

abbrev pub is_digit : ℕ → Bool
is_digit c = leb b'0' c && leb c b'9'

abbrev pub digit : ℕ → ℕ
digit c = c - b'0'

-- Two digits and no more.
unfoldable pub parse_minute : Text → Option ℕ
parse_minute (a ∷ b ∷ []) =
    if is_digit a && is_digit b && ltb (digit a * 10 + digit b) 60
    then some (digit a * 10 + digit b)
    else none
parse_minute _ = none

unfoldable pub parse_after_hour : ℕ → Text → Option ℕ
parse_after_hour hour [] = none
parse_after_hour hour (c ∷ s) =
    if (c == b':') && ltb hour 24
    then elim (parse_minute s) [ none ↦ none | some minute ↦ some (hour * 60 + minute) ]
    else none

-- minutesOfDayFromHHMM: an hour of one or two digits, a colon, a minute of two digits.
unfoldable pub parse_hhmm : Text → Option ℕ
parse_hhmm [] = none
parse_hhmm (a ∷ []) = none
parse_hhmm (a ∷ b ∷ s) =
    if is_digit a
    then if is_digit b
      then parse_after_hour (digit a * 10 + digit b) s
      else parse_after_hour (digit a) (b ∷ s)
    else none

-- strings.SplitN(s, d, 2), if it gives two parts.
unfoldable pub cut : ℕ → Text → Option (Text × Text)
cut d [] = none
cut d (c ∷ s) =
    let rest = cut d s in
    if c == d then some ([], s) else elim rest [ none ↦ none | some (l, r) ↦ some (c ∷ l, r) ]

-- The last lines of TimeWindowEvaluator.Evaluate, on minutes of the day.
unfoldable pub in_window : ℕ → ℕ → ℕ → Bool
in_window start end now =
    if leb start end then leb start now && ltb now end else leb start now || ltb now end

-- TimeWindowEvaluator.Evaluate
unfoldable pub time_window : ℕ → ActivationRule → Text → Bool → Bool
unfolding cut parse_hhmm in_window
time_window now rule key has_key = elim (cut b'-' rule.value) [
  | none ↦ false
  | some (left, right) ↦ elim (parse_hhmm (trim_space left)) [
    | none ↦ false
    | some start ↦ elim (parse_hhmm (trim_space right)) [
      | none ↦ false
      | some end ↦ in_window start end now
    ]
  ]
]

-- A window is the arc of the day from its start to its end, also past midnight: a minute lies in
-- it when it comes sooner after the start than the end does. An empty arc holds no minute.
pub in_window_arc :
    (start end now : ℕ)
    → start < 1440
    → end < 1440
    → now < 1440
    → in_window start end now ≡ ltb ((now + 1440 - start) % 1440) ((end + 1440 - start) % 1440)
unfolding in_window
in_window_arc start end now hs he hn = ground arith

parse_minute-lt : (s : Text) (m : ℕ) → parse_minute s ≡ some m → m < 60
unfolding parse_minute
parse_minute-lt (a ∷ b ∷ []) m h = ground arith
parse_minute-lt _ m h = cc

parse_after_hour-lt : (hour : ℕ) (s : Text) (m : ℕ) → parse_after_hour hour s ≡ some m → m < 1440
unfolding parse_after_hour
parse_after_hour-lt hour [] m h = cc
parse_after_hour-lt hour (c ∷ s) m h = elim (Option-cases (parse_minute s)) [
  | inl bad ↦ ground arith
  | inr (k, e) ↦ ground (arith, parse_minute-lt s k e)
]

-- What is parsed is a minute of the day.
pub parse_hhmm-lt : (s : Text) (m : ℕ) → parse_hhmm s ≡ some m → m < 1440
unfolding parse_hhmm
parse_hhmm-lt [] m h = cc
parse_hhmm-lt (a ∷ []) m h = cc
parse_hhmm-lt (a ∷ b ∷ s) m h = ground (
  arith,
  parse_after_hour-lt (digit a * 10 + digit b) s m,
  parse_after_hour-lt (digit a) (b ∷ s) m,
)
