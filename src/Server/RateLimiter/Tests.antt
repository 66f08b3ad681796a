-- ===== src/Server/RateLimiter/Tests.antt =====
-- The limiters on small traces.
use to_toggle.Prelude.{text_eq, ◌+◌, ◌≤◌, ◌≡◌, refl, true, false, [], ◌∷◌, Text, codes, arith}
use to_toggle.Server.RateLimiter.{remove, lookup, Attempts, Limits, login_limits, put, allow, reset}
use to_toggle.Server.RateLimiter.Windows.{Trace, run, allowed, allowed_bounds, allow_after_window}

abbrev ip : Text
ip = codes "10.0.0.1"

abbrev other_ip : Text
other_ip = codes "10.0.0.2"

abbrev two : Limits
two = record { limit = 2; window = 10 }

abbrev started : Attempts
started = put ip (record { count = 1; window_from = 0 }) []

abbrev attempts : Trace
attempts = (ip, 1) ∷ (other_ip, 1) ∷ (ip, 5) ∷ (ip, 10) ∷ []

allowed_bounds_example : allowed two ip attempts started + 1 ≤ 2
unfolding allowed allow lookup text_eq
allowed_bounds_example =
    allowed_bounds two ip attempts started (record { count = 1; window_from = 0 }) refl
      (omega arith) (omega arith, (omega arith, (omega arith, (omega arith, tt))))

allow_after_window_example : (allow two 21 ip (run two attempts [])).1 ≡ true
allow_after_window_example =
    allow_after_window two 10 21 ip attempts
      (omega arith, (omega arith, (omega arith, (omega arith, tt)))) (omega arith)

third_attempt_blocked : (allow two 3 ip (run two ((ip, 1) ∷ (ip, 2) ∷ []) [])).1 ≡ false
unfolding allow lookup run text_eq
third_attempt_blocked = refl

allowed_after_reset : (allow two 3 ip (reset ip (run two ((ip, 1) ∷ (ip, 2) ∷ []) []))).1 ≡ true
unfolding allow lookup remove run text_eq
allowed_after_reset = refl

-- Four attempts within the length of one window: two at its end, and two after it.
window_is_fixed : allowed two ip ((ip, 0) ∷ (ip, 9) ∷ (ip, 11) ∷ (ip, 12) ∷ []) [] ≡ 4
unfolding allowed text_eq allow lookup
window_is_fixed = refl

login_limit : allowed login_limits ip ((ip, 0) ∷ (ip, 900) ∷ []) [] ≡ 2
unfolding allowed text_eq allow lookup
login_limit = refl
