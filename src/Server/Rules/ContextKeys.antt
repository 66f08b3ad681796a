-- ===== src/Server/Rules/ContextKeys.antt =====
-- validContextKey of server/internal/app/domain/entity/activation_rule.go and of
-- totoggle_go/internal/toggle/rule.go.
use to_toggle.Prelude.{
  ◌≡◌, refl, sym, subst, inl, inr, false, Text, codes, text_eq, text_eq_iff, arith, Bool-cases,
  if◌then◌else◌,
}
use to_toggle.Sdk.Rule.{RuleType, percentage, parameter, user_id, ip, country, time, cohort, other}
use to_toggle.Sdk.Rule as Client
use to_toggle.Server.Rules.{valid_context_key}

-- The rule type of the client library that has this name.
unfoldable pub read_type : Text → RuleType
read_type t =
    if text_eq t (codes "percentage")
    then percentage
    else if text_eq t (codes "parameter")
    then parameter
    else if text_eq t (codes "user_id")
    then user_id
    else if text_eq t (codes "ip")
    then ip
    else if text_eq t (codes "country")
    then country
    else if text_eq t (codes "time")
    then time
    else if text_eq t (codes "cohort")
    then cohort
    else other t

-- A claim on a text holds if it holds at a name, and wherever the text is not this name.
pub or_named {ℓ} :
    (P : Text → Type ℓ) (t name : Text) → P name → (text_eq t name ≡ false → P t) → P t
or_named P t name h k = elim (Bool-cases (text_eq t name)) [
  | inl e ↦ subst P (sym ((text_eq_iff t name).0 e)) h
  | inr e ↦ k e
]

valid_context_key-other :
    (t key : Text)
    → text_eq t (codes "percentage") ≡ false
    → text_eq t (codes "parameter") ≡ false
    → text_eq t (codes "user_id") ≡ false
    → text_eq t (codes "ip") ≡ false
    → text_eq t (codes "country") ≡ false
    → text_eq t (codes "time") ≡ false
    → text_eq t (codes "cohort") ≡ false
    → valid_context_key t key ≡ Client.valid_context_key (read_type t) key
unfolding valid_context_key Client.valid_context_key read_type
valid_context_key-other t key e1 e2 e3 e4 e5 e6 e7 = rw (e1, e2, e3, e4, e5, e6, e7) refl

-- The server and the client library take the same context keys for a rule type.
pub valid_context_key-read_type :
    (t key : Text) → valid_context_key t key ≡ Client.valid_context_key (read_type t) key
unfolding valid_context_key Client.valid_context_key read_type text_eq
valid_context_key-read_type t key =
    let P : Text → Type 0 =
      λ x. valid_context_key x key ≡ Client.valid_context_key (read_type x) key in
    or_named P t (codes "percentage") refl (λ e1. or_named P t (codes "parameter") refl (λ e2.
      or_named P t (codes "user_id") refl (λ e3. or_named P t (codes "ip") refl (λ e4.
        or_named P t (codes "country") refl (λ e5. or_named P t (codes "time") refl (λ e6.
          or_named P t (codes "cohort") refl
            (λ e7. valid_context_key-other t key e1 e2 e3 e4 e5 e6 e7)))))))

pub read_type-time :
    (t : Text) → text_eq t (codes "time") ≡ false → Client.type_eq (read_type t) time ≡ false
unfolding read_type
read_type-time t e = ground (arith, e)
