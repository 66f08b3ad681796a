-- ===== src/Sdk/Strategy/Ip.antt =====
-- totoggle_go/internal/strategy/ip.go: a list of addresses and networks. Package net is a
-- parameter: ParseIP, ParseCIDR (its network), IPNet.Contains and IP.Equal.
use to_toggle.Prelude.{
  Bool, true, false, not, Option, none, some, List, [], ◌∷◌, Text, is_empty, trim_space,
  contains_char, split, if◌then◌else◌,
}
use to_toggle.Sdk.Rule.{ActivationRule}

pub record Net : Type 1 where
  pub Address : Type 0
  pub Network : Type 0
  pub parse_ip : Text → Option Address
  pub parse_cidr : Text → Option Network
  pub contains : Network → Address → Bool
  pub equal : Address → Address → Bool

module _ (net : Net) where
  open net use {Address, Network, parse_ip, parse_cidr, contains, equal}

  -- matchesIPEntry
  unfoldable pub matches_ip_entry : Text → Address → Bool
  matches_ip_entry entry candidate =
      if contains_char b'/' entry
      then elim (parse_cidr entry) [ none ↦ false | some network ↦ contains network candidate ]
      else elim (parse_ip entry) [ none ↦ false | some exact ↦ equal exact candidate ]

  -- The loop of IPEvaluator.Evaluate over the entries; an empty entry is skipped.
  unfoldable pub any_ip_entry : List Text → Address → Bool
  unfolding matches_ip_entry
  any_ip_entry [] candidate = false
  any_ip_entry (e ∷ es) candidate =
      let rest = any_ip_entry es candidate in
      let entry = trim_space e in
      if is_empty entry then rest else if matches_ip_entry entry candidate then true else rest

  -- IPEvaluator.Evaluate
  unfoldable pub ip_matches : ActivationRule → Text → Bool → Bool
  unfolding any_ip_entry
  ip_matches rule key has_key =
      if not has_key
      then false
      else if is_empty (trim_space rule.value)
      then false
      else elim (parse_ip key) [
        | none ↦ false
        | some candidate ↦ any_ip_entry (split b',' rule.value) candidate
      ]
