-- ===== src/Server/RateLimiter/Windows.antt =====
-- How many attempts a window lets through, and that every block ends.
use mathlib.Core.Option.{some-injective}
use to_toggle.Prelude.{
  ℕ, ◌+◌, ◌-◌, ◌≤◌, ◌<◌, ◌≡◌, refl, sym, ap, ◌∙◌, subst, inl, inr, true, false, not, Option, none,
  some, List, [], ◌∷◌, Text, text_eq, text_eq_iff, text_eq_refl, ltb, leb, All, arith, Bool-cases,
  Option-cases, if◌then◌else◌,
}
use to_toggle.Server.RateLimiter.{Attempt, Attempts, lookup, put, Limits, allow_known, allow}

-- Attempts in the order in which they are made: a key and the time.
abbrev pub Trace : Type 0
Trace = List (Text × ℕ)

-- The state after a trace, and how many attempts of one key it let through.
unfoldable pub run : Limits → Trace → Attempts → Attempts
run l [] m = m
run l ((k, now) ∷ ts) m = run l ts (allow l now k m).0

unfoldable pub allowed : Limits → Text → Trace → Attempts → ℕ
allowed l key [] m = 0
allowed l key ((k, now) ∷ ts) m =
    let rest = allowed l key ts (allow l now k m).0 in
    if text_eq k key then (if (allow l now k m).1 then rest + 1 else rest) else rest

lookup-put :
    (k key : Text) (a : Attempt) (m : Attempts)
    → lookup key (put k a m) ≡ (if text_eq k key then some a else lookup key m)
unfolding lookup
lookup-put k key a m = refl

-- An attempt of one key changes nothing for another.
allow-other :
    (l : Limits) (now : ℕ) (k key : Text) (o : Option Attempt) (m : Attempts)
    → text_eq k key ≡ false
    → lookup key (allow_known l now k o m).0 ≡ lookup key m
unfolding allow_known
allow-other l now k key none m h = lookup-put k key _ m ∙ rw h refl
allow-other l now k key (some a) m h =
    let p : (b : Attempt) → lookup key (put k b m) ≡ lookup key m =
      (λ b. lookup-put k key b m ∙ rw h refl) in
    ground
      (arith, p (record { count = 1; window_from = now }), p (record a { count = a.count + 1 }))

-- Within its window an attempt is let through while the count is below the limit, and counted.
allow-own :
    (l : Limits) (now : ℕ) (key : Text) (a : Attempt) (m : Attempts)
    → lookup key m ≡ some a
    → now ≤ a.window_from + l.window
    → let x = allow_known l now key (some a) m in
      (b : Attempt) × (lookup key x.0 ≡ some b)
      × (b.window_from ≡ a.window_from)
      × (b.count ≡ (if x.1 then a.count + 1 else a.count))
      × (x.1 ≡ not (leb l.limit a.count))
unfolding allow_known
allow-own l now key a m e w =
    let more = record a { count = a.count + 1 } in
    let same = text_eq_refl key in
    elim (Bool-cases (leb l.limit a.count)) [
      | inl full ↦
          (a, ground (arith, e, w, full), refl, ground (arith, e, w, full), ground (arith, w, full))
      | inr room ↦ (
        more,
        ground (arith, lookup-put key key more m, same, w, room),
        refl,
        ground (arith, w, room),
        ground (arith, w, room),
      )
    ]

allow-own_key :
    (l : Limits) (now : ℕ) (k key : Text) (a : Attempt) (m : Attempts)
    → text_eq k key ≡ true
    → lookup key m ≡ some a
    → now ≤ a.window_from + l.window
    → let x = allow l now k m in
      (b : Attempt) × (lookup key x.0 ≡ some b)
      × (b.window_from ≡ a.window_from)
      × (b.count ≡ (if x.1 then a.count + 1 else a.count))
      × (x.1 ≡ not (leb l.limit a.count))
unfolding allow
allow-own_key l now k key a m h e w =
    let own = allow-own l now key a m e w in
    subst
      (λ j.
        let x = allow l now j m in
        (b : Attempt) × (lookup key x.0 ≡ some b)
        × (b.window_from ≡ a.window_from)
        × (b.count ≡ (if x.1 then a.count + 1 else a.count))
        × (x.1 ≡ not (leb l.limit a.count)))
      (sym ((text_eq_iff k key).0 h)) (rw e own)

-- Over a window that is open for the key, however the attempts of other keys come between, no more
-- attempts of the key are let through than its limit leaves.
pub allowed_bounds :
    (l : Limits) (key : Text) (ts : Trace) (m : Attempts) (a : Attempt)
    → lookup key m ≡ some a
    → a.count ≤ l.limit
    → All (λ t. t.1 ≤ a.window_from + l.window) ts
    → allowed l key ts m + a.count ≤ l.limit
unfolding allowed allow
allowed_bounds l key [] m a e c w = omega arith
allowed_bounds l key ((k, now) ∷ ts) m a e c (n, w) = elim (Bool-cases (text_eq k key)) [
  | inr h ↦
      let ih =
        allowed_bounds l key ts (allow l now k m).0 a (allow-other l now k key (lookup k m) m h ∙ e)
          c w in
      ground (arith, h, ih)
  | inl h ↦
      let (b, lb, fb, cb, tb) = allow-own_key l now k key a m h e n in
      let below : b.count ≤ l.limit = ground (arith, c, cb, tb) in
      let ih =
        allowed_bounds l key ts (allow l now k m).0 b lb below
          (subst (λ f. All (λ t. t.1 ≤ f + l.window) ts) (sym fb) w) in
      ground (arith, h, ih, cb)
]

-- Every window of the map was opened at a time of the trace, or before it.
abbrev OpenedBy : ℕ → Text → Attempts → Type 0
OpenedBy last key m = (a : Attempt) → lookup key m ≡ some a → a.window_from ≤ last

put-OpenedBy :
    (last : ℕ) (k key : Text) (b : Attempt) (m : Attempts)
    → (text_eq k key ≡ true → b.window_from ≤ last)
    → OpenedBy last key m
    → OpenedBy last key (put k b m)
put-OpenedBy last k key b m n h a q =
    let p : (if text_eq k key then some b else lookup key m) ≡ some a =
      (sym (lookup-put k key b m) ∙ q) in
    elim (Bool-cases (text_eq k key)) [
      | inl same ↦
          let same_entry : b ≡ a =
            some-injective _ _ (sym (ap (λ c. if c then some b else lookup key m) same) ∙ p) in
          subst (λ c. c.window_from ≤ last) same_entry (n same)
      | inr other ↦ h a (sym (ap (λ c. if c then some b else lookup key m) other) ∙ p)
    ]

allow-OpenedBy :
    (l : Limits) (now last : ℕ) (k key : Text) (o : Option Attempt) (m : Attempts)
    → now ≤ last
    → OpenedBy last key m
    → lookup k m ≡ o
    → OpenedBy last key (allow_known l now k o m).0
unfolding allow_known
allow-OpenedBy l now last k key none m n h e = put-OpenedBy last k key _ m (λ _. n) h
allow-OpenedBy l now last k key (some b) m n h e =
    let known : text_eq k key ≡ true → b.window_from ≤ last =
      (λ q. h b (ap (λ j. lookup j m) (sym ((text_eq_iff k key).0 q)) ∙ e)) in
    elim (Bool-cases (ltb l.window (now - b.window_from))) [
      | inl past ↦ rw past (put-OpenedBy last k key _ m (λ _. n) h)
      | inr within ↦ elim (Bool-cases (leb l.limit b.count)) [
        | inl full ↦ rw (within, full) h
        | inr room ↦ rw (within, room) (put-OpenedBy last k key _ m known h)
      ]
    ]

run-OpenedBy :
    (l : Limits) (last : ℕ) (key : Text) (ts : Trace) (m : Attempts)
    → All (λ t. t.1 ≤ last) ts
    → OpenedBy last key m
    → OpenedBy last key (run l ts m)
unfolding run allow
run-OpenedBy l last key [] m w h = h
run-OpenedBy l last key ((k, now) ∷ ts) m (n, w) h =
    run-OpenedBy l last key ts (allow l now k m).0 w
      (allow-OpenedBy l now last k key (lookup k m) m n h refl)

-- No key is blocked for good: whatever was attempted until some time, an attempt that comes more
-- than a window later is let through.
pub allow_after_window :
    (l : Limits) (last now : ℕ) (key : Text) (ts : Trace)
    → All (λ t. t.1 ≤ last) ts
    → last + l.window < now
    → (allow l now key (run l ts [])).1 ≡ true
unfolding allow allow_known lookup
allow_after_window l last now key ts w n =
    let m = run l ts [] in
    let opened = run-OpenedBy l last key ts [] w (λ a e. cc) in
    elim (Option-cases (lookup key m)) [
      | inl e ↦ rw e refl
      | inr (a, e) ↦ let b = opened a e in rw e (ground (arith, b, n))
    ]
