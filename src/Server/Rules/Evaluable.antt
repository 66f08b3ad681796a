-- ===== src/Server/Rules/Evaluable.antt =====
-- ValidateRule of server/internal/app/domain/entity/activation_rule.go, and what the evaluators of
-- totoggle_go/internal/strategy make of a rule that it accepts.
use to_toggle.Prelude.{
  ◌≡◌, refl, sym, ap, ◌∙◌, subst, inl, inr, true, false, not, ◌||◌, Option, none, some, List, [],
  ◌∷◌, Text, codes, text_eq, text_eq_iff, is_empty, trim_space, trim_left, arith, ℕ, ◌≤◌, length,
  select, Bool-cases, if◌then◌else◌,
}
use to_toggle.Sdk.Rule as Client
use to_toggle.Sdk.Strategy.Percentage.{Floats}
use to_toggle.Server.Db.{Fault, Answer, ok, err, invalid}
use to_toggle.Server.Toggles.{ActivationRule}
use to_toggle.Server.Rules.{
  Json, raw_context_key, rule_context_key, unless_error, and_some, check_key, valid_context_key,
  validate_config, validate_value, validate_rest, validate_rule,
}
use to_toggle.Server.Rules.ContextKeys.{
  read_type, read_type-time, or_named, valid_context_key-read_type,
}

-- The rule as the client library reads it.
abbrev pub read_rule : ActivationRule → Client.ActivationRule
read_rule r = record { kind = read_type r.kind; value = r.value; config = r.config }

-- How many members have the name `context_key`, in capital or small letters.
abbrev pub context_keys : (Text → Text) → List (Text × Text) → ℕ
context_keys fold m = length (select (λ f. text_eq (fold f.0) (fold (codes "context_key"))) m)

-- What encoding/json promises of json.Unmarshal into the struct of the client library: where one
-- member alone has the name of the field, in capital or small letters, and this name is exactly
-- `context_key` and its value a string, it reads this string. Every member with the name is decoded
-- into the field, so that a second one, of another type, would be an error.
abbrev pub ReadsField : Json → (Text → Option Text) → (Text → Text) → Type 0
ReadsField json unmarshal fold =
    (config key : Text) (m : List (Text × Text))
    → raw_context_key json config ≡ some key
    → json.object config ≡ some m
    → context_keys fold m ≤ 1
    → unmarshal config ≡ some key

unless_error-parts : (a b : Answer Unit) → unless_error a b ≡ ok tt → (a ≡ ok tt) × (b ≡ ok tt)
unless_error-parts (ok u) b h = (refl, h)
unless_error-parts (err e) b h = cc

pub validate_rule-parts :
    (floats : Floats) (json : Json) (r : ActivationRule)
    → validate_rule floats json r ≡ ok tt
    → (validate_value floats r ≡ ok tt) × (validate_rest floats json r ≡ ok tt)
unfolding validate_rule
validate_rule-parts floats json r h =
    unless_error-parts (validate_value floats r) (validate_rest floats json r) h

and_some-some :
    {A B : Type 0} (o : Option A) (f : A → Option B) (b : B)
    → and_some o f ≡ some b
    → (a : A) × (o ≡ some a)
and_some-some none f b h = cc
and_some-some (some a) f b h = (a, refl)

raw_context_key-object :
    (json : Json) (config key : Text)
    → raw_context_key json config ≡ some key
    → (m : List (Text × Text)) × (json.object config ≡ some m)
unfolding raw_context_key
raw_context_key-object json [] key h = cc
raw_context_key-object json (c ∷ config) key h = and_some-some (json.object (c ∷ config)) _ key h

check_key-key :
    (kind : Text) (o : Option Text)
    → check_key kind o ≡ ok tt
    → (key : Text) × (o ≡ some key) × (valid_context_key kind key ≡ true)
unfolding check_key
check_key-key kind none h = cc
check_key-key kind (some key) h = (key, refl, ground (arith, h))

rule_context_key-known :
    (json : Json) (r : ActivationRule) (key : Text)
    → raw_context_key json r.config ≡ some key
    → rule_context_key json r ≡ key
unfolding rule_context_key
rule_context_key-known json r key e = rw (rule_context_key, e) refl

context_key-known :
    (unmarshal : Text → Option Text) (r : ActivationRule) (key : Text)
    → text_eq r.kind (codes "time") ≡ false
    → unmarshal r.config ≡ some key
    → valid_context_key r.kind key ≡ true
    → Client.context_key unmarshal (read_rule r) ≡ (key, true)
unfolding Client.context_key
context_key-known unmarshal r key n u v =
    let v' : Client.valid_context_key (read_type r.kind) key ≡ true =
      (sym (valid_context_key-read_type r.kind key) ∙ v) in
    rw (read_type-time r.kind n, u, v') refl

-- What the client library reads of the configuration of a rule that is not of the type `time`.
config_key-context_key :
    (json : Json) (unmarshal : Text → Option Text) (fold : Text → Text) (r : ActivationRule)
    → ReadsField json unmarshal fold
    → ((m : List (Text × Text)) → json.object r.config ≡ some m → context_keys fold m ≤ 1)
    → validate_config json r ≡ ok tt
    → text_eq r.kind (codes "time") ≡ false
    → Client.context_key unmarshal (read_rule r) ≡ (rule_context_key json r, true)
unfolding validate_config
config_key-context_key json unmarshal fold r reads only h n =
    let (key, e, v) = check_key-key r.kind (raw_context_key json r.config) h in
    let (m, o) = raw_context_key-object json r.config key e in
    context_key-known unmarshal r key n (reads r.config key m e o (only m o)) v
    ∙ ap (λ k. (k, true)) (sym (rule_context_key-known json r key e))

time_config-trim_space :
    (c : Text)
    → (if is_empty c || text_eq c (codes "null")
        then ok tt
        else err (invalid "a time rule takes no context_key"))
      ≡ ok tt
    → (is_empty c || text_eq (trim_space c) (codes "null")) ≡ true
unfolding text_eq trim_space trim_left
time_config-trim_space [] h = refl
time_config-trim_space (x ∷ c) h = elim (Bool-cases (text_eq (x ∷ c) (codes "null"))) [
  | inl e ↦
      subst (λ d. (is_empty d || text_eq (trim_space d) (codes "null")) ≡ true)
        (sym ((text_eq_iff (x ∷ c) (codes "null")).0 e)) refl
  | inr n ↦ ground (arith, h, n)
]

-- The configuration of an accepted rule of the type `time` is one that the client library takes.
time_config-context_key :
    (floats : Floats) (json : Json) (unmarshal : Text → Option Text) (r : ActivationRule)
    → r.kind ≡ codes "time"
    → validate_rest floats json r ≡ ok tt
    → Client.context_key unmarshal (read_rule r) ≡ ([], true)
unfolding validate_rest Client.context_key read_type text_eq
time_config-context_key floats json unmarshal r n =
    subst
      (λ k.
        validate_rest floats json (record r { kind = k }) ≡ ok tt
        → Client.context_key unmarshal (read_rule (record r { kind = k })) ≡ ([], true))
      (sym n) (λ h. ap (λ b. ([], b)) (time_config-trim_space r.config h))

validate_rest-context_key :
    (floats : Floats) (json : Json) (unmarshal : Text → Option Text) (fold : Text → Text)
    (r : ActivationRule)
    → ReadsField json unmarshal fold
    → ((m : List (Text × Text)) → json.object r.config ≡ some m → context_keys fold m ≤ 1)
    → validate_rest floats json r ≡ ok tt
    → Client.context_key unmarshal (read_rule r)
      ≡ ((if text_eq r.kind (codes "time") then [] else rule_context_key json r), true)
unfolding validate_rest
validate_rest-context_key floats json unmarshal fold r reads only h =
    elim (Bool-cases (text_eq r.kind (codes "time"))) [
      | inl t ↦ rw t (time_config-context_key floats json unmarshal r ((text_eq_iff _ _).0 t) h)
      | inr n ↦ rw n (
          config_key-context_key json unmarshal fold r reads only
            (ap
                (λ b.
                  if b
                  then (if is_empty r.config || text_eq r.config (codes "null")
                      then ok tt
                      else err (invalid "a time rule takes no context_key"))
                  else validate_config json r)
                (sym n)
              ∙ h)
            n)
    ]

validate_value-other :
    (floats : Floats) (r : ActivationRule)
    → text_eq r.kind (codes "percentage") ≡ false
    → text_eq r.kind (codes "parameter") ≡ false
    → text_eq r.kind (codes "user_id") ≡ false
    → text_eq r.kind (codes "ip") ≡ false
    → text_eq r.kind (codes "country") ≡ false
    → text_eq r.kind (codes "time") ≡ false
    → text_eq r.kind (codes "cohort") ≡ false
    → validate_value floats r ≡ err (invalid "type")
unfolding validate_value
validate_value-other floats r e1 e2 e3 e4 e5 e6 e7 = rw (e1, e2, e3, e4, e5, e6, e7) refl

err-ok : {A : Type 0} (a : Answer Unit) (e : Fault) → a ≡ err e → a ≡ ok tt → A
err-ok a e p q = cc

required :
    (value : Text) (e : Fault) (next : Answer Unit)
    → (if is_empty value then err e else next) ≡ ok tt
    → not (is_empty value) ≡ true
required [] e next h = cc
required (c ∷ value) e next h = refl

validate_value-is_valid_rule :
    (floats : Floats) (r : ActivationRule)
    → validate_value floats r ≡ ok tt
    → Client.is_valid_rule (read_rule r) ≡ true
unfolding validate_value read_type Client.is_valid_rule text_eq
validate_value-is_valid_rule floats r =
    let P : Text → Type 0 = λ k.
      validate_value floats (record r { kind = k }) ≡ ok tt
      → Client.is_valid_rule (read_rule (record r { kind = k })) ≡ true in
    or_named P r.kind (codes "percentage") (required r.value _ _) (λ e1.
      or_named P r.kind (codes "parameter") (required r.value _ _) (λ e2.
        or_named P r.kind (codes "user_id") (required r.value _ _) (λ e3.
          or_named P r.kind (codes "ip") (required r.value _ _) (λ e4.
            or_named P r.kind (codes "country") (required r.value _ _) (λ e5.
              or_named P r.kind (codes "time") (required r.value _ _) (λ e6.
                or_named P r.kind (codes "cohort") (λ h. refl)
                  (λ e7 h.
                    err-ok (validate_value floats r) (invalid "type")
                      (validate_value-other floats r e1 e2 e3 e4 e5 e6 e7) h)))))))

-- Where encoding/json reads a field as documented and the configuration, if it is an object, has
-- the name `context_key` at most once, in capital or small letters, a rule that ValidateRule accepts
-- is valid for the client library, which reads from it the configured context key, or none for the
-- type `time`.
pub validate_rule-context_key :
    (floats : Floats) (json : Json) (unmarshal : Text → Option Text) (fold : Text → Text)
    (r : ActivationRule)
    → ReadsField json unmarshal fold
    → ((m : List (Text × Text)) → json.object r.config ≡ some m → context_keys fold m ≤ 1)
    → validate_rule floats json r ≡ ok tt
    → (Client.is_valid_rule (read_rule r) ≡ true)
      × (Client.context_key unmarshal (read_rule r)
          ≡ ((if text_eq r.kind (codes "time") then [] else rule_context_key json r), true))
validate_rule-context_key floats json unmarshal fold r reads only h =
    let (v, c) = validate_rule-parts floats json r h in
    (
      validate_value-is_valid_rule floats r v,
      validate_rest-context_key floats json unmarshal fold r reads only c,
    )
