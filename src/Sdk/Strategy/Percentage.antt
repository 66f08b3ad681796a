-- ===== src/Sdk/Strategy/Percentage.antt =====
-- totoggle_go/internal/strategy/percentage.go: a share of the evaluations, by a hash of the key.
-- Floats are a parameter: their parser, their order, and the conversions that the code makes.
use Prim.Native.Nat.{bit_xor}
use to_toggle.Prelude.{
  ℕ, ◌+◌, ◌*◌, ◌/◌, ◌%◌, ◌^◌, ◌<◌, ◌≡◌, Bool, true, false, ◌||◌, Option, none, some, List, [], ◌∷◌,
  ◌++◌, Text, ltb, arith, if◌then◌else◌,
}
use to_toggle.Sdk.Rule.{ActivationRule}

-- float64, as far as the code uses it: strconv.ParseFloat, `<`, the constants 0 and 100,
-- `float64(n) / 100.0`, and `x * 100`.
pub record Floats : Type 1 where
  pub Float : Type 0
  pub parse : Text → Option Float
  pub less : Float → Float → Bool
  pub nought : Float
  pub hundred : Float
  pub hundredths : ℕ → Float
  pub times_hundred : Float → Float
  -- Between 0 and 99.99 the division by 100 keeps the order: it stays at 0 or more, below 100.
  pub hundredths-less : (n : ℕ) → n < 10000 → less (hundredths n) hundred ≡ true
  pub hundredths-nonneg : (n : ℕ) → less (hundredths n) nought ≡ false
  pub less_irrefl : (x : Float) → less x x ≡ false
  pub hundred-less-nought : less hundred nought ≡ false

-- The UTF-8 bytes of a code point, and of a text: `[]byte(s)`.
abbrev pub utf8_bytes : ℕ → List ℕ
utf8_bytes c =
    if ltb c 0x80
    then c ∷ []
    else if ltb c 0x800
    then (0xC0 + c / 64) ∷ (0x80 + c % 64) ∷ []
    else if ltb c 0x10000
    then (0xE0 + c / 4096) ∷ (0x80 + c / 64 % 64) ∷ (0x80 + c % 64) ∷ []
    else (0xF0 + c / 262144) ∷ (0x80 + c / 4096 % 64) ∷ (0x80 + c / 64 % 64) ∷ (0x80 + c % 64) ∷ []

unfoldable pub bytes : Text → List ℕ
bytes [] = []
bytes (c ∷ s) = utf8_bytes c ++ bytes s

-- The FNV-1a loop of hash/fnv: h ^= b; h *= 16777619, on 32 bits.
unfoldable pub fnv1a_from : ℕ → List ℕ → ℕ
fnv1a_from h [] = h
fnv1a_from h (b ∷ bs) = fnv1a_from (bit_xor h b * 16777619 % 2 ^ 32) bs

unfoldable pub fnv1a : List ℕ → ℕ
unfolding fnv1a_from
fnv1a bs = fnv1a_from 2166136261 bs

-- The hundredths of a percent in which consistentBucket puts a key.
unfoldable pub bucket : Text → Text → ℕ
unfolding fnv1a bytes
bucket rule_value key = fnv1a (bytes (rule_value ++ (b':' ∷ key))) % 10000

module _ (floats : Floats) where
  open floats use {Float, parse, less, nought, hundred, hundredths, times_hundred}

  -- consistentBucket
  pub consistent_bucket : Text → Text → Float
  consistent_bucket rule_value key = hundredths (bucket rule_value key)

  -- PercentageEvaluator.Evaluate; `random` is the draw of `randomBucket`, in [0, 1).
  unfoldable pub percentage_matches : Float → ActivationRule → Text → Bool → Bool
  unfolding consistent_bucket
  percentage_matches random rule key has_key = elim (parse rule.value) [
    | none ↦ false
    | some p ↦
        if less p nought || less hundred p
        then false
        else less (if has_key then consistent_bucket rule.value key else times_hundred random) p
  ]

bucket-lt : (rule_value key : Text) → bucket rule_value key < 10000
unfolding bucket
bucket-lt rule_value key = omega arith

-- At 100 percent every key is in, and at 0 percent none is.
pub percentage_matches_ends :
    (floats : Floats) (random : floats.Float) (rule : ActivationRule) (key : Text)
    → (floats.parse rule.value ≡ some floats.hundred
        → percentage_matches floats random rule key true ≡ true)
      × (floats.parse rule.value ≡ some floats.nought
          → percentage_matches floats random rule key true ≡ false)
unfolding percentage_matches
percentage_matches_ends floats random rule key = (at_hundred, at_nought)
  where
    at_hundred :
        floats.parse rule.value ≡ some floats.hundred
        → percentage_matches floats random rule key true ≡ true
    at_hundred h =
        rw (h, percentage_matches, floats.hundred-less-nought, floats.less_irrefl)
          (floats.hundredths-less (bucket rule.value key) (bucket-lt rule.value key))

    at_nought :
        floats.parse rule.value ≡ some floats.nought
        → percentage_matches floats random rule key true ≡ false
    at_nought h =
        rw (h, percentage_matches, floats.less_irrefl, floats.hundred-less-nought)
          (floats.hundredths-nonneg (bucket rule.value key))
