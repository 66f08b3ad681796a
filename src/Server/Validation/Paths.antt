-- ===== src/Server/Validation/Paths.antt =====
-- Which paths ValidateTogglePath of server/internal/app/domain/entity/validation.go accepts, and
-- that NewPath of totoggle_go/internal/toggle/path.go takes them.
use mathlib.Core.List.{reverse, reverse-cons, reverse-append}
use to_toggle.Prelude.{
  ℕ, ◌+◌, ◌≡◌, refl, sym, ap, ◌∙◌, inl, inr, Bool, true, false, not, ◌&&◌, &&_iff, ◌||◌, List, [],
  ◌∷◌, ◌++◌, Text, is_empty, is_space, has_prefix, trim_left, trim_space, split, split-cons,
  cons_head, length, all, any, ltb, leb, ◌==◌, arith, Bool-cases, if◌then◌else◌,
}
use to_toggle.Sdk.Path.{new_path, valid}
use to_toggle.Sdk.Path.Validity.{new_path_of_segments}
use to_toggle.Server.Validation.{
  FieldName, path, Message, consecutive_dots, dot_at_an_end, too_long, new_validation_result,
  ValidationResult, add_error_if, is_part_char, is_run, has_last, contains_twice, validate_part,
  validate_parts, validate_toggle_path,
}

trim_left-last :
    (c : ℕ) (xs : Text)
    → is_space c ≡ false
    → (ys : Text) × (trim_left (xs ++ (c ∷ [])) ≡ ys ++ (c ∷ []))
unfolding trim_left
trim_left-last c [] h = ([], rw h refl)
trim_left-last c (x ∷ xs) h = elim (Bool-cases (is_space x)) [
  | inl e ↦ let (ys, q) = trim_left-last c xs h in (ys, rw e q)
  | inr n ↦ (x ∷ xs, rw n refl)
]

-- A text that starts with something other than a space does not vanish when it is trimmed.
trim_space-cons : (c : ℕ) (s : Text) → is_space c ≡ false → is_empty (trim_space (c ∷ s)) ≡ false
unfolding trim_space trim_left
trim_space-cons c s h =
    let (ys, q) = trim_left-last c (reverse s) h in
    let all_of : trim_space (c ∷ s) ≡ reverse (trim_left (reverse (c ∷ s))) = rw h refl in
    ap is_empty (
      all_of
      ∙ (ap (λ t. reverse (trim_left t)) (reverse-cons c s)
          ∙ (ap reverse q ∙ reverse-append ys (c ∷ []))))

part_char-not_space : (c : ℕ) → is_part_char c ≡ true → is_space c ≡ false
unfolding is_part_char
part_char-not_space c h = ground (arith, h)

-- A part made of the allowed characters.
abbrev pub is_part : Text → Bool
is_part s = is_run is_part_char s

is_part-trim_space : (s : Text) → is_part s ≡ true → is_empty (trim_space s) ≡ false
unfolding is_run
is_part-trim_space [] h = cc
is_part-trim_space (c ∷ s) h =
    trim_space-cons c s
      (part_char-not_space c ((&&_iff (is_part_char c) (all is_part_char s)).0 h).0)

abbrev tail_of : List Text → List Text
tail_of [] = []
tail_of (w ∷ ws) = ws

tail_of-cons_head : (c : ℕ) (s : Text) → tail_of (cons_head c (split 46 s)) ≡ tail_of (split 46 s)
tail_of-cons_head c s = let (w, ws, e) = split-cons 46 s in rw e refl

-- The parts after the first one, from the second character on.
tail_of-split :
    (c : ℕ) (s : Text)
    → tail_of (split 46 (c ∷ s)) ≡ (if c == 46 then split 46 s else tail_of (split 46 s))
unfolding split
tail_of-split c s = elim (Bool-cases (c == 46)) [
  | inl e ↦ rw e refl
  | inr n ↦ rw n (tail_of-cons_head c s)
]

all-tail_of : (ws : List Text) → all is_part ws ≡ true → all is_part (tail_of ws) ≡ true
all-tail_of [] h = refl
all-tail_of (w ∷ ws) h = ((&&_iff (is_part w) (all is_part ws)).0 h).1

-- A text whose parts are all good starts with a character of a part.
head_of_parts :
    (s : Text)
    → all is_part (split 46 s) ≡ true
    → (c : ℕ) × (t : Text) × (s ≡ c ∷ t) × (is_part_char c ≡ true)
unfolding split is_run
head_of_parts [] h = cc
head_of_parts (c ∷ t) h = elim (Bool-cases (c == 46)) [
  | inl e ↦ let bad : (false && all is_part (split 46 t)) ≡ true = (sym (rw e refl) ∙ h) in cc
  | inr n ↦
      let (w, ws, e) = split-cons 46 t in
      let shape : all is_part (split 46 (c ∷ t)) ≡ (is_part (c ∷ w) && all is_part ws) =
        rw (n, e) refl in
      let good : (is_part (c ∷ w) && all is_part ws) ≡ true = (sym shape ∙ h) in
      let run = ((&&_iff (is_part (c ∷ w)) (all is_part ws)).0 good).0 in
      (c, t, refl, ((&&_iff (is_part_char c) (all is_part_char w)).0 run).0)
]

part_char-not_dot : (c : ℕ) → is_part_char c ≡ true → (c == 46) ≡ false
unfolding is_part_char
part_char-not_dot c h = ground (arith, h)

-- Good parts leave no dot at the start, none at the end, and no two in a row.
parts-has_prefix : (s : Text) → all is_part (split 46 s) ≡ true → has_prefix s (46 ∷ []) ≡ false
unfolding has_prefix
parts-has_prefix s h =
    let (c, t, e, p) = head_of_parts s h in
    ap (λ x. has_prefix x (46 ∷ [])) e ∙ rw (part_char-not_dot c p) refl

not_last :
    (c : ℕ) (s : Text) → (c == 46) ≡ false → has_last 46 s ≡ false → has_last 46 (c ∷ s) ≡ false
unfolding has_last
not_last c [] n h = n
not_last c (d ∷ s) n h = h

later_parts-dots :
    (s : Text)
    → all is_part (tail_of (split 46 s)) ≡ true
    → (has_last 46 s ≡ false) × (contains_twice 46 s ≡ false)
unfolding has_last contains_twice
later_parts-dots [] h = (refl, refl)
later_parts-dots (c ∷ s) h = elim (Bool-cases (c == 46)) [
  | inl e ↦
      let parts : all is_part (split 46 s) ≡ true =
        (ap (all is_part) (sym (tail_of-split c s ∙ rw e refl)) ∙ h) in
      let (d, t, q, p) = head_of_parts s parts in
      let (l, m) = later_parts-dots s (all-tail_of (split 46 s) parts) in
      let last : has_last 46 (c ∷ s) ≡ false =
        (ap (λ x. has_last 46 (c ∷ x)) q ∙ (ap (has_last 46) (sym q) ∙ l)) in
      (last, ground (arith, parts-has_prefix s parts, m))
  | inr n ↦
      let parts : all is_part (tail_of (split 46 s)) ≡ true =
        (ap (all is_part) (sym (tail_of-split c s ∙ rw n refl)) ∙ h) in
      let (l, m) = later_parts-dots s parts in (not_last c s n l, ground (arith, n, m))
]

add_error_if-is_valid :
    (bad : Bool) (f : FieldName) (m : Message) (r : ValidationResult)
    → (add_error_if bad f m r).is_valid ≡ (r.is_valid && not bad)
unfolding add_error_if
add_error_if-is_valid bad f m r = ground arith

validate_part-is_valid :
    (i : ℕ) (p : Text) (r : ValidationResult)
    → (validate_part i p r).is_valid ≡ (r.is_valid && is_part p)
unfolding validate_part
validate_part-is_valid i p r = ground (arith, is_part-trim_space p)

validate_parts-is_valid :
    (i : ℕ) (ps : List Text) (r : ValidationResult)
    → (validate_parts i ps r).is_valid ≡ (r.is_valid && all is_part ps)
unfolding validate_parts
validate_parts-is_valid i [] r = ground arith
validate_parts-is_valid i (p ∷ ps) r =
    ground (
      arith,
      validate_parts-is_valid (i + 1) ps (validate_part i p r),
      validate_part-is_valid i p r,
    )

validate_toggle_path-checks :
    (s : Text)
    → is_empty (trim_space s) ≡ false
    → (validate_toggle_path s).is_valid ≡ (
        not (ltb 1000 (length s))
        && not (has_prefix s (46 ∷ []) || has_last 46 s)
        && not (contains_twice 46 s)
        && all is_part (split 46 s))
unfolding validate_toggle_path add_error_if
validate_toggle_path-checks s h = rw h (
    ground (
      arith,
      validate_parts-is_valid 0 (split 46 s) (
          add_error_if (contains_twice 46 s) path consecutive_dots (
            add_error_if (has_prefix s (46 ∷ []) || has_last 46 s) path dot_at_an_end
              (add_error_if (ltb 1000 (length s)) path too_long new_validation_result))),
    ))

parts-trim_space : (s : Text) → all is_part (split 46 s) ≡ true → is_empty (trim_space s) ≡ false
parts-trim_space s h =
    let (c, t, e, p) = head_of_parts s h in
    ap (λ x. is_empty (trim_space x)) e ∙ trim_space-cons c t (part_char-not_space c p)

validate_toggle_path-blank :
    (s : Text) → is_empty (trim_space s) ≡ true → (validate_toggle_path s).is_valid ≡ false
unfolding validate_toggle_path
validate_toggle_path-blank s h = rw h refl

-- ValidateTogglePath accepts exactly the paths of at most 1000 characters whose parts between dots
-- are each one or more of the allowed characters.
pub validate_toggle_path_iff :
    (s : Text)
    → (validate_toggle_path s).is_valid ≡ (leb (length s) 1000 && all is_part (split 46 s))
validate_toggle_path_iff s = elim (Bool-cases (is_empty (trim_space s))) [
  | inl e ↦
      let blank = validate_toggle_path-blank s e in ground (arith, e, blank, parts-trim_space s)
  | inr n ↦
      let checks = validate_toggle_path-checks s n in
      let dots = later_parts-dots s in
      ground (arith, checks, parts-has_prefix s, dots, all-tail_of (split 46 s))
]

parts-is_empty : (ws : List Text) → all is_part ws ≡ true → any is_empty ws ≡ false
unfolding is_run
parts-is_empty [] h = refl
parts-is_empty (w ∷ ws) h = ground (arith, h, parts-is_empty ws)

-- Every path that ValidateTogglePath accepts is one that the client library's NewPath takes as it
-- is.
pub validate_toggle_path-new_path :
    (s : Text)
    → (validate_toggle_path s).is_valid ≡ true
    → new_path s ≡ valid (record { value = s })
validate_toggle_path-new_path s h =
    let q : (leb (length s) 1000 && all is_part (split 46 s)) ≡ true =
      (sym (validate_toggle_path_iff s) ∙ h) in
    new_path_of_segments s (
      parts-is_empty (split 46 s) ((&&_iff (leb (length s) 1000) (all is_part (split 46 s))).0 q).1)
