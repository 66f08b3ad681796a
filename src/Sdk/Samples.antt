-- ===== src/Sdk/Samples.antt =====
-- Concrete worlds, toggles and clients for the tests of the client library.
use to_toggle.Prelude.{
  ℕ, ◌*◌, ◌<◌, ◌≡◌, refl, Bool, true, false, Option, none, some, List, [], ◌∷◌, Text, codes,
  text_eq, ltb, arith, if◌then◌else◌,
}
use to_toggle.Sdk.Rule.{ActivationRule, user_id}
use to_toggle.Sdk.Catalog.{Flag, new_application}
use to_toggle.Sdk.Strategy.Percentage.{Floats}
use to_toggle.Sdk.Strategy.Ip.{Net}
use to_toggle.Sdk.Strategy.Registry.{World}
use to_toggle.Sdk.Cache.{Cache, zero_stats}
use to_toggle.Sdk.Client.Evaluate.{Reading, found, missing}

pub below : (n : ℕ) → n < 10000 → ltb n 10000 ≡ true
below n h = ground arith

pub not_below : (n : ℕ) → ltb n 0 ≡ false
not_below n = ground arith

pub irrefl : (n : ℕ) → ltb n n ≡ false
irrefl n = ground arith

-- Floats that are counted in hundredths.
abbrev pub hundredths_of_one : Floats
hundredths_of_one = record {
  Float = ℕ;
  parse = λ s.
      if text_eq s (codes "100")
      then some 10000
      else if text_eq s (codes "0")
      then some 0
      else none;
  less = ltb;
  nought = 0;
  hundred = 10000;
  hundredths = λ n. n;
  times_hundred = λ n. n * 100;
  hundredths-less = below;
  hundredths-nonneg = not_below;
  less_irrefl = irrefl;
  hundred-less-nought = refl;
}

abbrev pub plain_net : Net
plain_net = record {
  Address = Text;
  Network = Text;
  parse_ip = λ s. some s;
  parse_cidr = λ s. none;
  contains = λ n a. false;
  equal = text_eq;
}

abbrev pub noon : World
noon = record { floats = hundredths_of_one; net = plain_net; random = 0; now = 720 }

abbrev pub flag_at : Text → Bool → Option ActivationRule → Flag
flag_at path on rule = record {
  id = path;
  path = record { value = path };
  label = path;
  enabled = on;
  level = 0;
  parent_id = none;
  app_id = codes "app";
  has_activation_rule = elim rule [ none ↦ false | some r ↦ true ];
  activation_rule = rule;
}

abbrev pub for_users : ActivationRule
for_users = record { kind = user_id; value = codes "ann, bob"; config = codes "user_id" }

abbrev pub flags : List Flag
flags =
    flag_at (codes "shop") true none
    ∷ flag_at (codes "shop.cart") true (some for_users)
    ∷ flag_at (codes "old") false none
    ∷ flag_at (codes "old.page") true none
    ∷ []

abbrev pub loaded : Cache
loaded = record { app = new_application flags; stats = zero_stats; has_catalog = true }

abbrev pub for_user : Text → Reading
for_user user = record {
  started = true;
  shutdown = false;
  cache = loaded;
  resolver = some (λ key. if text_eq key (codes "user_id") then found user else missing);
  unmarshal = λ config. some config;
  world = noon;
}
