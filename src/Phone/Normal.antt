-- ===== src/Phone/Normal.antt =====
-- The form that the normalization of a phone number gives.
use franklink.Prelude.{
  ℕ, ◌≡◌, inl, inr, refl, Bool, true, false, ◌&&◌, none, some, [], ◌∷◌, arith, All, Bool-cases,
  if-cases, if◌then◌else◌, ◌==◌, length,
}
use franklink.Text.{Text, codes}
use franklink.Text.Strip.{is_space}
use franklink.Text.Find.{starts_with}
use franklink.Phone.{
  is_format, cleaned, is_number, us_pattern, intl_pattern, is_valid_phone_number,
  lacks_country_code, add_country_code, normalize_plus, normalize_plain, normalize_phone_number,
}

-- No formatting character is left.
abbrev pub Clean : Text → Type 0
Clean s = All (λ c. is_format c ≡ false) s

cleaned-Clean : (s : Text) → Clean (cleaned s)
unfolding cleaned
cleaned-Clean [] = tt
cleaned-Clean (c ∷ s) = elim (Bool-cases (is_format c)) [
  | inl e ↦ rw e (cleaned-Clean s)
  | inr e ↦ rw e (e, cleaned-Clean s)
]

pub cleaned_again : (s : Text) → Clean s → cleaned s ≡ s
unfolding cleaned
cleaned_again [] h = refl
cleaned_again (c ∷ s) h = rw (h.0, cleaned_again s h.1) refl

second_test : (a b : Bool) → (a && b) ≡ true → b ≡ true
second_test a b h = ground arith

-- A text in the form that the normalization leaves alone.
pub record Normal (t : Text) : Type 0 where
  pub clean : Clean t
  pub plus : (rest : Text) × (t ≡ 43 ∷ rest)
  pub coded : lacks_country_code t ≡ false

plus_parts : (s : Text) → starts_with (codes "+") s ≡ true → (rest : Text) × (s ≡ 43 ∷ rest)
unfolding starts_with
plus_parts [] h = cc
plus_parts (c ∷ s) h = let same : c ≡ 43 = ground arith in (s, rw same refl)

add_country_code-Normal :
    (s : Text) → Clean s → lacks_country_code s ≡ true → Normal (add_country_code s)
unfolding lacks_country_code add_country_code is_format is_space
add_country_code-Normal [] k h = cc
add_country_code-Normal (c ∷ []) k h = cc
add_country_code-Normal (c ∷ d ∷ s) k h = record {
  clean = (refl, (refl, k.1));
  plus = (49 ∷ d ∷ s, refl);
  coded = ground arith;
}

eleven-Normal : (s : Text) → Clean s → (length s == 11) ≡ true → Normal (43 ∷ s)
unfolding lacks_country_code is_format is_space
eleven-Normal [] k h = cc
eleven-Normal (d ∷ s) k h = record { clean = (refl, k); plus = (d ∷ s, refl); coded = ground arith }

module _ (is_decimal : ℕ → Bool) where
  us-Normal : (s : Text) → Clean s → us_pattern is_decimal s ≡ true → Normal (43 ∷ 49 ∷ s)
  unfolding us_pattern is_number lacks_country_code is_format is_space
  us-Normal [] k h = cc
  us-Normal (d ∷ s) k h = record {
    clean = (refl, (refl, k));
    plus = (49 ∷ d ∷ s, refl);
    coded = ground arith;
  }

  intl-Normal :
      (s : Text)
      → Clean s
      → us_pattern is_decimal s ≡ false
      → intl_pattern is_decimal s ≡ true
      → Normal (43 ∷ s)
  unfolding us_pattern intl_pattern is_number lacks_country_code is_format is_space
  intl-Normal [] k u h = cc
  intl-Normal (d ∷ s) k u h = record {
    clean = (refl, k);
    plus = (d ∷ s, refl);
    coded = ground arith;
  }

  normalize_plus-Normal :
      (s t : Text)
      → Clean s
      → starts_with (codes "+") s ≡ true
      → normalize_plus is_decimal s ≡ some t
      → Normal t
  unfolding normalize_plus
  normalize_plus-Normal s t k p h =
      let full : Text = if lacks_country_code s then add_country_code s else s in
      elim (if-cases (is_valid_phone_number is_decimal full) (some full) none (some t) h) [
        | inr (e, absurd) ↦ cc
        | inl (e, same) ↦
            let equal : full ≡ t = cc in
            rw⁻¹ equal (elim (Bool-cases (lacks_country_code s)) [
              | inl lacks ↦ rw lacks (add_country_code-Normal s k lacks)
              | inr has_code ↦
                  rw has_code (record { clean = k; plus = plus_parts s p; coded = has_code })
            ])
      ]

  normalize_plain-Normal : (s t : Text) → Clean s → normalize_plain is_decimal s ≡ some t → Normal t
  unfolding normalize_plain
  normalize_plain-Normal s t k h = elim (if-cases (us_pattern is_decimal s) _ _ (some t) h) [
    | inl (us, same) ↦ let equal : 43 ∷ 49 ∷ s ≡ t = cc in rw⁻¹ equal (us-Normal s k us)
    | inr (not_us, h') ↦
        elim (if-cases (starts_with (codes "1") s && length s == 11) _ _ (some t) h') [
          | inl (eleven, same) ↦
              let equal : 43 ∷ s ≡ t = cc in
              rw⁻¹ equal (
                eleven-Normal s k (second_test (starts_with (codes "1") s) (length s == 11) eleven))
          | inr (e, h'') ↦ elim (if-cases (intl_pattern is_decimal s) _ _ (some t) h'') [
            | inl (intl, same) ↦
                let equal : 43 ∷ s ≡ t = cc in rw⁻¹ equal (intl-Normal s k not_us intl)
            | inr (e', absurd) ↦ cc
          ]
        ]
  ]

  pub normalize-Normal :
      (phone t : Text) → normalize_phone_number is_decimal phone ≡ some t → Normal t
  unfolding normalize_phone_number
  normalize-Normal [] t h = cc
  normalize-Normal (c ∷ s) t h =
      let phone : Text = cleaned (c ∷ s) in
      elim (if-cases (starts_with (codes "+") phone) _ _ (some t) h) [
        | inl (plus, h') ↦ normalize_plus-Normal phone t (cleaned-Clean (c ∷ s)) plus h'
        | inr (plain, h') ↦ normalize_plain-Normal phone t (cleaned-Clean (c ∷ s)) h'
      ]
