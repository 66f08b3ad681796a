-- ===== src/Sdk/Client/Backoff.antt =====
-- totoggle_go/client.go: backoffDelay, the wait before the next background refresh. Durations are
-- nanoseconds; `jitter` is the source of randomness, which may give any signed duration.
use Prim.Native.Nat.{min}
use native.Mathlib.Nat.{pow-suc}
use to_toggle.Prelude.{
  ℕ, zero, suc, ◌+◌, ◌-◌, ◌*◌, ◌/◌, ◌^◌, ◌≤◌, ◌≡◌, ◌&&◌, ltb, arith, if◌then◌else◌,
}

-- A signed duration: `later n` is n, `sooner n` is -n.
pub data Shift : Type 0 where
  later sooner : ℕ → Shift

-- The loop of backoffDelay: at most `rounds` doublings, none past the maximum.
unfoldable pub grow : ℕ → ℕ → ℕ → ℕ
grow zero delay most = delay
grow (suc rounds) delay most =
    let next = grow rounds (if ltb (most / 2) delay then most else delay * 2) most in
    if ltb delay most then next else delay

-- The offset, cut to the spread on both sides.
unfoldable pub clamp_offset : ℕ → Shift → Shift
clamp_offset spread (later n) = if ltb spread n then later spread else later n
clamp_offset spread (sooner n) = if ltb spread n then sooner spread else sooner n

-- The last lines of backoffDelay.
unfoldable pub shifted : ℕ → ℕ → Shift → ℕ
shifted most delay (sooner n) = if ltb most (delay - n) then most else delay - n
shifted most delay (later n) =
    if ltb 0 n && ltb (most - n) delay
    then most
    else if ltb most (delay + n)
    then most
    else delay + n

-- Client.backoffDelay, for a count of failures.
unfoldable pub backoff_delay : ℕ → ℕ → (ℕ → Shift) → ℕ → ℕ
unfolding grow clamp_offset shifted
backoff_delay interval most jitter failures =
    let grown = grow (failures - 1) interval most in
    let delay = if ltb most grown then most else grown in
    let spread = delay / 5 in shifted most delay (clamp_offset spread (jitter spread))

le-mul : (n k : ℕ) → 1 ≤ k → n ≤ n * k
le-mul n k h = grind arith

one-le-two_pow : (r : ℕ) → 1 ≤ 2 ^ r
one-le-two_pow zero = omega arith
one-le-two_pow (suc r) = rw pow-suc (omega (arith, one-le-two_pow r))

-- The delay that the loop reaches: the interval, doubled in each round, up to the maximum.
grow-eq :
    (rounds delay most : ℕ) → delay ≤ most → grow rounds delay most ≡ min most (delay * 2 ^ rounds)
unfolding grow
grow-eq zero delay most h = ground arith
grow-eq (suc rounds) delay most h =
    let unit = one-le-two_pow rounds in
    rw (pow-suc 2 rounds) (
      ground (
        arith,
        le-mul delay (2 ^ rounds) unit,
        le-mul most (2 ^ rounds) unit,
        grow-eq rounds most most (omega arith),
        grow-eq rounds (delay * 2) most,
      ))

-- What the delay is before the jitter: the interval doubled for each failure after the first, up
-- to the maximum.
abbrev pub target_delay : ℕ → ℕ → ℕ → ℕ
target_delay interval most failures = min most (interval * 2 ^ (failures - 1))

shifted_bounds :
    (most delay spread : ℕ) (s : Shift)
    → delay ≤ most
    → spread ≤ delay
    → (delay - spread ≤ shifted most delay (clamp_offset spread s))
      × (shifted most delay (clamp_offset spread s) ≤ min most (delay + spread))
unfolding shifted clamp_offset
shifted_bounds most delay spread (later n) h k = ground arith
shifted_bounds most delay spread (sooner n) h k = ground arith

-- The wait is the doubled interval, give or take a fifth, and never more than the maximum,
-- whatever the source of jitter gives.
pub backoff_delay_bounds :
    (interval most : ℕ) (jitter : ℕ → Shift) (failures : ℕ)
    → interval ≤ most
    → let delay = target_delay interval most failures in
      (delay - delay / 5 ≤ backoff_delay interval most jitter failures)
      × (backoff_delay interval most jitter failures ≤ min most (delay + delay / 5))
unfolding backoff_delay
backoff_delay_bounds interval most jitter failures h =
    let delay = target_delay interval most failures in
    let grown = grow (failures - 1) interval most in
    let capped : (if ltb most grown then most else grown) ≡ delay =
      ground (arith, grow-eq (failures - 1) interval most h) in
    rw capped
      (shifted_bounds most delay (delay / 5) (jitter (delay / 5)) (omega arith) (omega arith))
