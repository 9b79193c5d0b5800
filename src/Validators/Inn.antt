-- ===== src/Validators/Inn.antt =====
-- The checksums of src/service/detect/validators.rs do not panic on what the validators hand them.
use alfavibe_hack.Prelude.{
  Runs, ℕ, zero, suc, ◌%◌, ◌<◌, refl, Bool, true, false, List, [], ◌∷◌, some, Text, is_ascii_digit,
  digits_of, All, arith, length, take, Bool-cases, inl, inr, eqb, if◌then◌else◌,
}
use alfavibe_hack.Validators.{
  to_digit, weighted, digit_at, check_digit, inn10_weights, inn12_weights_1, inn12_weights_2,
  inn10_valid, inn12_valid, inn_validate, snils_weights, snils_valid, snils_validate,
}
use alfavibe_hack.Validators.Luhn.{IsDigit}

pub digits_of-All : (raw : Text) → All IsDigit (digits_of raw)
unfolding digits_of
digits_of-All [] = tt
digits_of-All (c ∷ raw) = elim (Bool-cases (is_ascii_digit c)) [
  | inl digit ↦ rw digit (digit, digits_of-All raw)
  | inr other ↦ rw other (digits_of-All raw)
]

to_digit-Runs : (c : ℕ) → IsDigit c → Runs (to_digit c)
unfolding to_digit
to_digit-Runs c h = rw h (_, refl)

pub weighted-Runs : (ks : List ℕ) (ds : Text) → All IsDigit ds → Runs (weighted ks ds)
unfolding weighted
weighted-Runs [] ds h = (0, refl)
weighted-Runs (k ∷ ks) [] h = (0, refl)
weighted-Runs (k ∷ ks) (c ∷ ds) (d, h) =
    let (rest, e) = weighted-Runs ks ds h in rw (d, e) (_, refl)

digit_at-Runs : (ds : Text) (i : ℕ) → All IsDigit ds → i < length ds → Runs (digit_at ds i)
unfolding digit_at
digit_at-Runs [] i h lt = elim lt [ ]
digit_at-Runs (c ∷ ds) zero (d, h) lt = to_digit-Runs c d
digit_at-Runs (c ∷ ds) (suc i) (d, h) lt = digit_at-Runs ds i h (omega arith)

check_digit-Runs :
    (ks : List ℕ) (ds : Text) (i : ℕ) → All IsDigit ds → i < length ds → Runs (check_digit ks ds i)
unfolding check_digit
check_digit-Runs ks ds i h lt =
    let (sum, e) = weighted-Runs ks ds h in
    let (given, f) = digit_at-Runs ds i h lt in
    (eqb (sum % 11 % 10) given, rw (e, f, check_digit) refl)

inn10-Runs : (ds : Text) → All IsDigit ds → Runs (inn10_valid ds)
unfolding inn10_valid
inn10-Runs ds h = elim (Bool-cases (eqb (length ds) 10)) [
  | inl same ↦
      let (b, e) = check_digit-Runs inn10_weights ds 9 h (ground arith) in rw (same, e) (b, refl)
  | inr other ↦ rw other (false, refl)
]

inn12-Runs : (ds : Text) → All IsDigit ds → Runs (inn12_valid ds)
unfolding inn12_valid
inn12-Runs ds h = elim (Bool-cases (eqb (length ds) 12)) [
  | inl same ↦
      let (first, e) = check_digit-Runs inn12_weights_1 ds 10 h (ground arith) in
      let (second, f) = check_digit-Runs inn12_weights_2 ds 11 h (ground arith) in
      rw (same, e, f) (branch first second)
  | inr other ↦ rw other (false, refl)
]
  where
    branch : (a b : Bool) → Runs (if a then some b else some false)
    branch true b = (b, refl)
    branch false b = (false, refl)

-- The INN validator gives a verdict on every text: no digit is missing where it reads one.
pub inn_validate-Runs : (raw : Text) → Runs (inn_validate raw)
unfolding inn_validate
inn_validate-Runs raw = elim (Bool-cases (eqb (length (digits_of raw)) 10)) [
  | inl ten ↦ let (ok, e) = inn10-Runs (digits_of raw) (digits_of-All raw) in rw (ten, e) (_, refl)
  | inr other ↦ elim (Bool-cases (eqb (length (digits_of raw)) 12)) [
    | inl twelve ↦
        let (ok, e) = inn12-Runs (digits_of raw) (digits_of-All raw) in
        rw (other, twelve, e) (_, refl)
    | inr neither ↦ rw (other, neither) (_, refl)
  ]
]

All-take : (n : ℕ) (xs : Text) → All IsDigit xs → All IsDigit (take n xs)
All-take zero xs h = tt
All-take (suc n) [] h = tt
All-take (suc n) (x ∷ xs) (d, h) = (d, All-take n xs h)

snils-Runs : (ds : Text) → All IsDigit ds → Runs (snils_valid ds)
unfolding snils_valid
snils-Runs ds h = elim (Bool-cases (eqb (length ds) 11)) [
  | inl same ↦
      let (sum, e) = weighted-Runs snils_weights (take 9 ds) (All-take 9 ds h) in
      let (tens, f) = digit_at-Runs ds 9 h (ground arith) in
      let (ones, g) = digit_at-Runs ds 10 h (ground arith) in rw (same, e, f, g) (_, refl)
  | inr other ↦ rw other (false, refl)
]

-- So does the SNILS validator.
pub snils_validate-Runs : (raw : Text) → Runs (snils_validate raw)
unfolding snils_validate
snils_validate-Runs raw = elim (Bool-cases (eqb (length (digits_of raw)) 11)) [
  | inl same ↦
      let (ok, e) = snils-Runs (digits_of raw) (digits_of-All raw) in rw (same, e) (_, refl)
  | inr other ↦ rw other (_, refl)
]
