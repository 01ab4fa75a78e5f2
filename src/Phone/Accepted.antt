-- ===== src/Phone/Accepted.antt =====
-- What a number is once `validate_and_normalize` has accepted it.
use franklink.Prelude.{
  ℕ, ◌≡◌, ◌≢◌, ◌⊎◌, inl, inr, refl, sym, ap, ◌∙◌, Bool, true, false, not, ◌&&◌, ◌||◌, Option, none,
  some, [], ◌∷◌, if◌then◌else◌,
}
use franklink.Text.{Text, codes}
use franklink.Text.Find.{starts_with}
use franklink.Phone.{
  has, cleaned, is_number, us_pattern, intl_pattern, e164_pattern, looks_like_url,
  is_valid_phone_number, lacks_country_code, add_country_code, normalize_plus, normalize_plain,
  normalize_phone_number, checked_number, validate_and_normalize, Refusal, email_address,
  url_address, failed_final,
}
use franklink.Phone.Normal.{cleaned_again, Normal, normalize-Normal}

abbrev Verdict : Type 0
Verdict = Bool × Option Text × Option Refusal

taken_first : (b : Bool) (x y : Verdict) → (if b then x else y).0 ≡ true → y.0 ≡ false → b ≡ true
taken_first true x y h refused = refl
taken_first false x y h refused = cc

taken_second :
    (b : Bool) (x y : Verdict)
    → (if b then x else y).0 ≡ true
    → x.0 ≡ false
    → (b ≡ false) × (y.0 ≡ true)
taken_second true x y h refused = cc
taken_second false x y h refused = (refl, h)

valid_tests :
    (a b u p q r : Bool)
    → (if a || (b && not a)
        then false
        else if u
        then false
        else if p
        then true
        else if q
        then true
        else r)
      ≡ true
    → (a ≡ false) × (u ≡ false) × ((p ≡ true) ⊎ (q ≡ true) ⊎ (r ≡ true))
valid_tests true b u p q r h = cc
valid_tests false true u p q r h = cc
valid_tests false false true p q r h = cc
valid_tests false false false true q r h = (refl, refl, inl refl)
valid_tests false false false false true r h = (refl, refl, inr (inl refl))
valid_tests false false false false false r h = (refl, refl, inr (inr h))

module _ (is_decimal : ℕ → Bool) where
  -- The tests that a valid number passes.
  record Checks (t : Text) : Type 0 where
    no_at_sign : has 64 t ≡ false
    no_url : looks_like_url t ≡ false
    one_pattern :
        (e164_pattern is_decimal (cleaned t) ≡ true)
        ⊎ (us_pattern is_decimal (cleaned t) ≡ true)
        ⊎ (intl_pattern is_decimal (cleaned t) ≡ true)

  valid-Checks : (t : Text) → is_valid_phone_number is_decimal t ≡ true → Checks t
  unfolding is_valid_phone_number
  valid-Checks [] h = cc
  valid-Checks (c ∷ s) h =
      let phone : Text = c ∷ s in
      let tests =
        valid_tests (has 64 phone) (has 46 phone) (looks_like_url phone)
          (e164_pattern is_decimal (cleaned phone)) (us_pattern is_decimal (cleaned phone))
          (intl_pattern is_decimal (cleaned phone)) h in
      record { no_at_sign = tests.0; no_url = tests.1; one_pattern = tests.2 }

  plus-e164 :
      (t rest : Text)
      → t ≡ 43 ∷ rest
      → (e164_pattern is_decimal t ≡ true)
        ⊎ (us_pattern is_decimal t ≡ true)
        ⊎ (intl_pattern is_decimal t ≡ true)
      → e164_pattern is_decimal t ≡ true
  unfolding us_pattern intl_pattern is_number
  plus-e164 t rest e (inl h) = h
  plus-e164 t rest e (inr (inl h)) =
      let h' : us_pattern is_decimal (43 ∷ rest) ≡ true = ap (us_pattern is_decimal) (sym e) ∙ h in
      cc
  plus-e164 t rest e (inr (inr h)) =
      let h' : intl_pattern is_decimal (43 ∷ rest) ≡ true =
        ap (intl_pattern is_decimal) (sym e) ∙ h in
      cc

  valid-e164 :
      (t : Text)
      → Normal t
      → is_valid_phone_number is_decimal t ≡ true
      → e164_pattern is_decimal t ≡ true
  valid-e164 t n h =
      let checks = valid-Checks t h in
      plus-e164 t n.plus.0 n.plus.1 (rw⁻¹ (cleaned_again t n.clean) checks.one_pattern)

  plus-starts_with : (t rest : Text) → t ≡ 43 ∷ rest → starts_with (codes "+") t ≡ true
  unfolding starts_with
  plus-starts_with t rest e = rw e refl

  normalize_plus-again :
      (t : Text)
      → lacks_country_code t ≡ false
      → is_valid_phone_number is_decimal t ≡ true
      → normalize_plus is_decimal t ≡ some t
  unfolding normalize_plus
  normalize_plus-again t coded h =
      ap
        (λ b.
          let full : Text = if b then add_country_code t else t in
          if is_valid_phone_number is_decimal full then some full else none)
        coded
      ∙ ap (λ b. if b then some t else none) h

  normalize-again :
      (t : Text)
      → Normal t
      → is_valid_phone_number is_decimal t ≡ true
      → normalize_phone_number is_decimal t ≡ some t
  unfolding normalize_phone_number
  normalize-again [] n h = cc
  normalize-again (c ∷ s) n h =
      let again : cleaned (c ∷ s) ≡ c ∷ s = cleaned_again (c ∷ s) n.clean in
      let plus = plus-starts_with (c ∷ s) n.plus.0 n.plus.1 in
      ap
        (λ p.
          if starts_with (codes "+") p
          then normalize_plus is_decimal p
          else normalize_plain is_decimal p)
        again
      ∙ ap
          (λ b. if b then normalize_plus is_decimal (c ∷ s) else normalize_plain is_decimal (c ∷ s))
          plus
      ∙ normalize_plus-again (c ∷ s) n.coded h

  -- The answer once the first two tests have passed.
  validate-checked :
      (t : Text)
      → t ≢ []
      → has 64 t ≡ false
      → looks_like_url t ≡ false
      → validate_and_normalize is_decimal t
        ≡ checked_number is_decimal (normalize_phone_number is_decimal t)
  unfolding validate_and_normalize
  validate-checked [] full at url = elim (full refl) [ ]
  validate-checked (c ∷ s) full at url =
      let found = checked_number is_decimal (normalize_phone_number is_decimal (c ∷ s)) in
      ap
        (λ b.
          if b
          then (false, none, some email_address)
          else if looks_like_url (c ∷ s)
          then (false, none, some url_address)
          else found)
        at
      ∙ ap (λ b. if b then (false, none, some url_address) else found) url

  checked-valid :
      (t : Text)
      → t ≢ []
      → is_valid_phone_number is_decimal t ≡ true
      → checked_number is_decimal (some t) ≡ (true, some t, none)
  unfolding checked_number
  checked-valid [] full h = elim (full refl) [ ]
  checked-valid (c ∷ s) full h =
      ap (λ b. if b then (true, some (c ∷ s), none) else (false, none, some failed_final)) h

  plus_full : (t rest : Text) → t ≡ 43 ∷ rest → t ≢ []
  plus_full t rest e = λ empty. cc

  validate-again :
      (t : Text)
      → Normal t
      → is_valid_phone_number is_decimal t ≡ true
      → validate_and_normalize is_decimal t ≡ (true, some t, none)
  validate-again t n h =
      let checks = valid-Checks t h in
      let full = plus_full t n.plus.0 n.plus.1 in
      validate-checked t full checks.no_at_sign checks.no_url
      ∙ ap (checked_number is_decimal) (normalize-again t n h)
      ∙ checked-valid t full h

  -- What the answer of `validate_and_normalize` says about the number it gives.
  pub record Accepted (answer : Bool × Option Text × Option Refusal) : Type 0 where
    pub number : Text
    pub given : answer ≡ (true, some number, none)
    pub is_e164 : e164_pattern is_decimal number ≡ true
    pub is_fixed : validate_and_normalize is_decimal number ≡ answer

  checked-Accepted :
      (n : Option Text)
      → ((t : Text) → n ≡ some t → Normal t)
      → (checked_number is_decimal n).0 ≡ true
      → Accepted (checked_number is_decimal n)
  unfolding checked_number
  checked-Accepted none k h = cc
  checked-Accepted (some []) k h = cc
  checked-Accepted (some (c ∷ s)) k h =
      let valid = taken_first (is_valid_phone_number is_decimal (c ∷ s)) _ _ h refl in
      let normal = k (c ∷ s) refl in
      let given = checked-valid (c ∷ s) (λ e. cc) valid in
      record {
        number = c ∷ s;
        given = given;
        is_e164 = valid-e164 (c ∷ s) normal valid;
        is_fixed = validate-again (c ∷ s) normal valid ∙ sym given;
      }

  -- A phone number that is accepted is given in E.164 format, with no reason of a refusal, and
  -- the number that is given is accepted and given back unchanged.
  pub validate_and_normalize-Accepted :
      (phone : Text)
      → (validate_and_normalize is_decimal phone).0 ≡ true
      → Accepted (validate_and_normalize is_decimal phone)
  unfolding validate_and_normalize
  validate_and_normalize-Accepted [] h = cc
  validate_and_normalize-Accepted (c ∷ s) h =
      let phone : Text = c ∷ s in
      let at = taken_second (has 64 phone) _ _ h refl in
      let url = taken_second (looks_like_url phone) _ _ at.1 refl in
      let answer = validate-checked phone (λ e. cc) at.0 url.0 in
      rw answer (
        checked-Accepted (normalize_phone_number is_decimal phone)
          (normalize-Normal is_decimal phone) url.1)
