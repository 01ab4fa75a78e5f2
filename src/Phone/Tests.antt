-- ===== src/Phone/Tests.antt =====
-- Phone numbers written in the forms that the program meets. Only ASCII digits are `\d` here.
use franklink.Prelude.{ℕ, ◌≡◌, refl, Bool, true, false, ◌&&◌, some, none, leb}
use franklink.Text.{codes}
use franklink.Text.Strip.{is_space}
use franklink.Text.Find.{starts_with}
use franklink.Phone.{is_format, validate_and_normalize, normalize_phone_number, failed_final}
use franklink.Phone.Accepted.{Accepted, validate_and_normalize-Accepted}

abbrev ascii_digit : ℕ → Bool
ascii_digit c = leb 48 c && leb c 57

dashed_number :
    validate_and_normalize ascii_digit (codes "646-370-7933")
    ≡ (true, some (codes "+16463707933"), none)
unfolding validate_and_normalize is_format is_space starts_with
dashed_number = refl

dashed_valid : (validate_and_normalize ascii_digit (codes "646-370-7933")).0 ≡ true
unfolding validate_and_normalize is_format is_space starts_with
dashed_valid = refl

validate_and_normalize-Accepted_example :
    Accepted ascii_digit (validate_and_normalize ascii_digit (codes "646-370-7933"))
validate_and_normalize-Accepted_example =
    validate_and_normalize-Accepted ascii_digit (codes "646-370-7933") dashed_valid

-- `normalize_phone_number` alone takes letters for a number.
letters_normalized :
    normalize_phone_number ascii_digit (codes "1abcdefghij") ≡ some (codes "+1abcdefghij")
unfolding normalize_phone_number is_format is_space starts_with
letters_normalized = refl

letters_refused :
    validate_and_normalize ascii_digit (codes "1abcdefghij") ≡ (false, none, some failed_final)
unfolding validate_and_normalize is_format is_space starts_with
letters_refused = refl
