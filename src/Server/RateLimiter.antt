-- ===== src/Server/RateLimiter.antt =====
-- server/internal/app/middleware/rate_limiter.go, login_rate_limiter.go, killswitch_rate_limiter.go:
-- attempts counted for each key in a window of time. Each method runs under the limiter's lock, so
-- it is one step. Go's map is an association list; the clock is monotonic, and a natural number.
use to_toggle.Prelude.{
  ℕ, ◌+◌, ◌-◌, Bool, true, false, not, Option, none, some, List, [], ◌∷◌, Text, text_eq, select,
  ltb, leb, if◌then◌else◌,
}
pub mod Windows
mod Tests

-- windowAttempt
pub record Attempt : Type 0 where
  pub count : ℕ
  pub window_from : ℕ

abbrev pub Attempts : Type 0
Attempts = List (Text × Attempt)

unfoldable pub lookup : Text → Attempts → Option Attempt
lookup k [] = none
lookup k ((k', a) ∷ m) = let rest = lookup k m in if text_eq k' k then some a else rest

-- `m[k] = a`
abbrev pub put : Text → Attempt → Attempts → Attempts
put k a m = (k, a) ∷ m

-- `delete(m, k)`
unfoldable pub remove : Text → Attempts → Attempts
remove k [] = []
remove k ((k', a) ∷ m) = let rest = remove k m in if text_eq k' k then rest else (k', a) ∷ rest

pub record Limits : Type 0 where
  pub limit : ℕ
  pub window : ℕ

-- The limits of the login, of the forgotten password, and of the kill switch, in seconds.
abbrev pub login_limits : Limits
login_limits = record { limit = 10; window = 900 }

abbrev pub forgot_password_limits : Limits
forgot_password_limits = record { limit = 10; window = 900 }

abbrev pub kill_switch_limits : Limits
kill_switch_limits = record { limit = 30; window = 300 }

-- slidingWindowLimiter.allow, on what the map has for the key.
unfoldable pub allow_known : Limits → ℕ → Text → Option Attempt → Attempts → Attempts × Bool
allow_known l now key none m = (put key (record { count = 1; window_from = now }) m, true)
allow_known l now key (some a) m =
    if ltb l.window (now - a.window_from)
    then (put key (record { count = 1; window_from = now }) m, true)
    else if leb l.limit a.count
    then (m, false)
    else (put key (record a { count = a.count + 1 }) m, true)

unfoldable pub allow : Limits → ℕ → Text → Attempts → Attempts × Bool
unfolding allow_known
allow l now key m = allow_known l now key (lookup key m) m

-- slidingWindowLimiter.reset
abbrev pub reset : Text → Attempts → Attempts
reset key m = remove key m
