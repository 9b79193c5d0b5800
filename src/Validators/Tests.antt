-- ===== src/Validators/Tests.antt =====
-- The examples of the source's tests, evaluated.
use alfavibe_hack.Prelude.{◌≡◌, refl, true, false, some, utf8, digits_of}
use alfavibe_hack.Validators.{
  luhn_valid, luhn_validate, inn10_valid, inn12_valid, snils_valid, check_digit, weighted, digit_at,
  valid,
}

luhn_known :
    (luhn_valid (utf8 "4532015112830366") ≡ true) × (luhn_valid (utf8 "4532015112830367") ≡ false)
unfolding luhn_valid
luhn_known = (refl, refl)

luhn_spaced : luhn_validate (utf8 "4532 0151 1283 0366") ≡ valid
unfolding luhn_validate luhn_valid digits_of
luhn_spaced = refl

inn_known :
    (inn10_valid (utf8 "7707083893") ≡ some true)
    × (inn12_valid (utf8 "500100732259") ≡ some true)
    × (inn10_valid (utf8 "7707083894") ≡ some false)
unfolding inn10_valid inn12_valid check_digit weighted digit_at
inn_known = (refl, refl, refl)

snils_known :
    (snils_valid (utf8 "11223344595") ≡ some true) × (snils_valid (utf8 "11223344596") ≡ some false)
unfolding snils_valid weighted digit_at
snils_known = (refl, refl)
