-- ===== src/Phone.antt =====
-- app/utils/phone_validator.py. A regular expression is the test that it stands for. Which code
-- points `\d` matches, and of which `str.isdigit` holds, is Python's.
pub mod Normal
pub mod Accepted
mod Tests
use Prim.Native.String.{String}
use franklink.Prelude.{
  ℕ, zero, suc, ◌+◌, ◌-◌, ◌≡◌, Bool, true, false, not, ◌&&◌, ◌||◌, Option, none, some, List, [],
  ◌∷◌, ◌++◌, if◌then◌else◌, ltb, leb, ◌==◌, length,
}
use franklink.Text.{Text, codes}
use franklink.Text.Strip.{is_space}
use franklink.Text.Find.{starts_with}

-- `character in text`
unfoldable pub has : ℕ → Text → Bool
has c [] = false
has c (d ∷ s) = d == c || has c s

-- `[\s\-\(\)\.]`
unfoldable pub is_format : ℕ → Bool
unfolding is_space
is_format c = is_space c || (c == 45 || (c == 40 || (c == 41 || c == 46)))

-- `re.sub` of the formatting characters by nothing
unfoldable pub cleaned : Text → Text
unfolding is_format
cleaned [] = []
cleaned (c ∷ s) = if is_format c then cleaned s else c ∷ cleaned s

-- `text.replace(character, '')`
unfoldable pub without : ℕ → Text → Text
without c [] = []
without c (d ∷ s) = if d == c then without c s else d ∷ without c s

unfoldable pub all_of : (ℕ → Bool) → Text → Bool
all_of p [] = true
all_of p (c ∷ s) = p c && all_of p s

pub data Reason : Type 0 where
  is_empty has_at_sign is_url has_non_digits : Reason
  bad_length_with_code bad_length : ℕ → Reason
  not_recognized : Reason

pub data Refusal : Type 0 where
  empty_number email_address url_address invalid_format failed_final : Refusal

abbrev pub looks_like_url : Text → Bool
looks_like_url phone = starts_with (codes "http") phone || starts_with (codes "www") phone

-- A text of eleven characters, the second of which is from 2 to 9.
unfoldable pub lacks_country_code : Text → Bool
lacks_country_code [] = false
lacks_country_code (c ∷ []) = false
lacks_country_code (c ∷ d ∷ s) = length (c ∷ d ∷ s) == 11 && (leb 50 d && leb d 57)

-- `'+1' + cleaned[1:]`
unfoldable pub add_country_code : Text → Text
add_country_code [] = 43 ∷ 49 ∷ []
add_country_code (c ∷ s) = 43 ∷ 49 ∷ s

-- `str.isdigit`, which is false of the empty text.
abbrev is_digits : (ℕ → Bool) → Text → Bool
is_digits is_digit [] = false
is_digits is_digit (c ∷ s) = all_of is_digit (c ∷ s)

unfoldable pub get_invalid_phone_reason : (ℕ → Bool) → Text → Reason
unfolding has cleaned without
get_invalid_phone_reason is_digit [] = is_empty
get_invalid_phone_reason is_digit (c ∷ s) =
    let phone : Text = cleaned (c ∷ s) in
    let n = length phone in
    if has 64 (c ∷ s)
    then has_at_sign
    else if looks_like_url (c ∷ s)
    then is_url
    else if not (is_digits is_digit (without 43 phone))
    then has_non_digits
    else if starts_with (codes "+") phone
    then (if ltb n 11 || ltb 16 n then bad_length_with_code (n - 1) else not_recognized)
    else (if ltb n 10 || ltb 15 n then bad_length n else not_recognized)

module _ (is_decimal : ℕ → Bool) where
  -- A first digit from `low` to 9 and then from `least` to `most` of `\d`.
  unfoldable pub is_number : ℕ → ℕ → ℕ → Text → Bool
  unfolding all_of
  is_number low least most [] = false
  is_number low least most (d ∷ s) =
      (leb low d && leb d 57)
      && ((leb least (length s) && leb (length s) most) && all_of is_decimal s)

  unfoldable pub us_pattern : Text → Bool
  unfolding is_number
  us_pattern s = is_number 50 9 9 s

  unfoldable pub intl_pattern : Text → Bool
  unfolding is_number
  intl_pattern s = is_number 49 9 14 s

  unfoldable pub e164_pattern : Text → Bool
  unfolding intl_pattern
  e164_pattern [] = false
  e164_pattern (c ∷ s) = c == 43 && intl_pattern s

  unfoldable pub is_valid_phone_number : Text → Bool
  unfolding cleaned has us_pattern intl_pattern e164_pattern
  is_valid_phone_number [] = false
  is_valid_phone_number (c ∷ s) =
      let phone : Text = c ∷ s in
      if has 64 phone || (has 46 phone && not (has 64 phone))
      then false
      else if looks_like_url phone
      then false
      else if e164_pattern (cleaned phone)
      then true
      else if us_pattern (cleaned phone)
      then true
      else intl_pattern (cleaned phone)

  unfoldable pub normalize_plus : Text → Option Text
  unfolding is_valid_phone_number lacks_country_code add_country_code
  normalize_plus s =
      let full = if lacks_country_code s then add_country_code s else s in
      if is_valid_phone_number full then some full else none

  unfoldable pub normalize_plain : Text → Option Text
  unfolding us_pattern intl_pattern
  normalize_plain s =
      if us_pattern s
      then some (43 ∷ 49 ∷ s)
      else if starts_with (codes "1") s && length s == 11
      then some (43 ∷ s)
      else if intl_pattern s
      then some (43 ∷ s)
      else none

  unfoldable pub normalize_phone_number : Text → Option Text
  unfolding cleaned normalize_plus normalize_plain
  normalize_phone_number [] = none
  normalize_phone_number (c ∷ s) =
      let phone = cleaned (c ∷ s) in
      if starts_with (codes "+") phone then normalize_plus phone else normalize_plain phone

  -- The result is the validity, the number and the reason of a refusal.
  unfoldable pub checked_number : Option Text → Bool × Option Text × Option Refusal
  unfolding is_valid_phone_number
  checked_number none = (false, none, some invalid_format)
  checked_number (some []) = (false, none, some invalid_format)
  checked_number (some (c ∷ s)) =
      if is_valid_phone_number (c ∷ s)
      then (true, some (c ∷ s), none)
      else (false, none, some failed_final)

  unfoldable pub validate_and_normalize : Text → Bool × Option Text × Option Refusal
  unfolding has normalize_phone_number checked_number
  validate_and_normalize [] = (false, none, some empty_number)
  validate_and_normalize (c ∷ s) =
      if has 64 (c ∷ s)
      then (false, none, some email_address)
      else if looks_like_url (c ∷ s)
      then (false, none, some url_address)
      else checked_number (normalize_phone_number (c ∷ s))
