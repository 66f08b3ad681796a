-- ===== src/Server/Validation.antt =====
-- server/internal/app/domain/entity/validation.go: the names, paths and ids that the server takes.
use to_toggle.Prelude.{
  ℕ, ◌+◌, Bool, true, false, not, ◌&&◌, ◌||◌, List, [], ◌∷◌, ◌++◌, Text, is_empty, has_prefix,
  trim_space, split, length, all, any, ltb, leb, ◌==◌, if◌then◌else◌,
}
pub mod Paths
mod Tests

pub data FieldName : Type 0 where
  name path id : FieldName

-- The messages, without their words.
pub data Message : Type 0 where
  required too_long unsafe_characters invalid_characters dot_at_an_end consecutive_dots
        invalid_format :
      Message
  empty_part invalid_part : ℕ → Message

pub record ValidationError : Type 0 where
  pub at_field : FieldName
  pub message : Message

pub record ValidationResult : Type 0 where
  pub is_valid : Bool
  pub errors : List ValidationError

-- NewValidationResult
abbrev pub new_validation_result : ValidationResult
new_validation_result = record { is_valid = true; errors = [] }

-- ValidationResult.AddError
abbrev pub add_error : FieldName → Message → ValidationResult → ValidationResult
add_error f m r = record {
  is_valid = false;
  errors = r.errors ++ (record { at_field = f; message = m } ∷ []);
}

-- `if bad { result.AddError(...) }`
unfoldable pub add_error_if : Bool → FieldName → Message → ValidationResult → ValidationResult
add_error_if bad f m r = if bad then add_error f m r else r

abbrev pub is_upper : ℕ → Bool
is_upper c = leb b'A' c && leb c b'Z'

abbrev pub is_lower : ℕ → Bool
is_lower c = leb b'a' c && leb c b'z'

abbrev pub is_numeral : ℕ → Bool
is_numeral c = leb b'0' c && leb c b'9'

-- `[a-zA-Z0-9\-_]`, and with `\s` and `\.` too.
unfoldable pub is_part_char : ℕ → Bool
is_part_char c = is_lower c || (is_upper c || (is_numeral c || (c == b'-' || c == b'_')))

unfoldable pub is_name_char : ℕ → Bool
unfolding is_part_char
is_name_char c =
    is_part_char c || (c == b'.' || (c == 32 || (c == 9 || (c == 10 || (c == 12 || c == 13)))))

-- A pattern `^[...]+$`
unfoldable pub is_run : (ℕ → Bool) → Text → Bool
is_run p s = not (is_empty s) && all p s

-- strings.HasSuffix of a single character, and strings.Contains of it twice.
unfoldable pub has_last : ℕ → Text → Bool
has_last d [] = false
has_last d (c ∷ []) = c == d
has_last d (c ∷ e ∷ s) = has_last d (e ∷ s)

unfoldable pub contains_twice : ℕ → Text → Bool
contains_twice d [] = false
contains_twice d (c ∷ s) = (c == d && has_prefix s (d ∷ [])) || contains_twice d s

-- strings.ContainsAny(name, "<>\"'&")
abbrev pub is_unsafe : ℕ → Bool
is_unsafe c = c == 60 || (c == 62 || (c == 34 || (c == 39 || c == 38)))

-- ValidateApplicationName
unfoldable pub validate_application_name : Text → ValidationResult
unfolding add_error_if is_run is_name_char
validate_application_name s =
    if is_empty (trim_space s)
    then add_error name required new_validation_result
    else add_error_if (not (is_run is_name_char s)) name invalid_characters (
        add_error_if (any is_unsafe s) name unsafe_characters
          (add_error_if (ltb 255 (length s)) name too_long new_validation_result))

-- The loop of ValidateTogglePath, from the part of index `i` on.
unfoldable pub validate_part : ℕ → Text → ValidationResult → ValidationResult
unfolding is_run is_part_char
validate_part i part r =
    if is_empty (trim_space part)
    then add_error path (empty_part (i + 1)) r
    else if not (is_run is_part_char part)
    then add_error path (invalid_part (i + 1)) r
    else r

unfoldable pub validate_parts : ℕ → List Text → ValidationResult → ValidationResult
unfolding validate_part
validate_parts i [] r = r
validate_parts i (part ∷ parts) r = validate_parts (i + 1) parts (validate_part i part r)

-- ValidateTogglePath
unfoldable pub validate_toggle_path : Text → ValidationResult
unfolding validate_parts add_error_if has_last contains_twice
validate_toggle_path s =
    if is_empty (trim_space s)
    then add_error path required new_validation_result
    else validate_parts 0 (split 46 s) (
        add_error_if (contains_twice 46 s) path consecutive_dots (
          add_error_if (has_prefix s (46 ∷ []) || has_last 46 s) path dot_at_an_end
            (add_error_if (ltb 1000 (length s)) path too_long new_validation_result)))

-- ValidateToggleID and ValidateApplicationID: `^[0-9A-Z]{26}$`.
unfoldable pub validate_id : Text → ValidationResult
unfolding add_error_if
validate_id s =
    if is_empty (trim_space s)
    then add_error id required new_validation_result
    else add_error_if (not (length s == 26 && all (λ c. is_numeral c || is_upper c) s)) id
        invalid_format new_validation_result
