-- ===== src/Server/Validation/Tests.antt =====
-- The validation of names and paths on small inputs.
use to_toggle.Prelude.{
  has_prefix, trim_space, ◌≡◌, refl, true, false, ◌&&◌, [], ◌∷◌, codes, split, length, all, leb,
}
use to_toggle.Server.Validation.{
  path, name, consecutive_dots, empty_part, invalid_part, dot_at_an_end, unsafe_characters,
  invalid_characters, validate_toggle_path, validate_application_name, validate_id,
}
use to_toggle.Server.Validation.Paths.{is_part, validate_toggle_path_iff}

validate_toggle_path_iff_example :
    (validate_toggle_path (codes "shop.cart")).is_valid
    ≡ (leb (length (codes "shop.cart")) 1000 && all is_part (split 46 (codes "shop.cart")))
validate_toggle_path_iff_example = validate_toggle_path_iff (codes "shop.cart")

errors_of_a_path :
    (validate_toggle_path (codes "a..b c.")).errors
    ≡ record { at_field = path; message = dot_at_an_end }
      ∷ record { at_field = path; message = consecutive_dots }
      ∷ record { at_field = path; message = empty_part 2 }
      ∷ record { at_field = path; message = invalid_part 3 }
      ∷ record { at_field = path; message = empty_part 4 }
      ∷ []
unfolding validate_toggle_path trim_space split has_prefix
errors_of_a_path = refl

errors_of_a_name :
    (validate_application_name (codes "a<b")).errors
    ≡ record { at_field = name; message = unsafe_characters }
      ∷ record { at_field = name; message = invalid_characters }
      ∷ []
unfolding validate_application_name trim_space
errors_of_a_name = refl

ulid_accepted : (validate_id (codes "01ARZ3NDEKTSV4RRFFQ69G5FAV")).is_valid ≡ true
unfolding validate_id trim_space
ulid_accepted = refl

short_id_refused : (validate_id (codes "01ARZ")).is_valid ≡ false
unfolding validate_id trim_space
short_id_refused = refl
