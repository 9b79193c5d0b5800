-- ===== src/Validators.antt =====
-- src/service/detect/validators.rs: checksums and formats. `none` stands for a panic (`unwrap` on a
-- character that is no digit).
pub mod Dates
pub mod Luhn
pub mod Inn
mod Tests
use alfavibe_hack.Prelude.{
  ◌>>=◌, ℕ, zero, suc, ◌+◌, ◌-◌, ◌*◌, ◌%◌, ◌^◌, ◌<◌, Bool, true, false, not, ◌&&◌, ◌||◌, List, [],
  ◌∷◌, Option, none, some, reverse, Text, leb, ltb, eqb, if◌then◌else◌, is_ascii_digit, digits_of,
  length, get_elem?, take, drop,
}

-- `ValidationResult` of src/domain/traits.rs
pub data ValidationResult : Type 0 where
  valid invalid not_applicable : ValidationResult

abbrev pub verdict : Bool → ValidationResult
verdict b = if b then ValidationResult.valid else invalid

-- `c.to_digit(10)`
unfoldable pub to_digit : ℕ → Option ℕ
to_digit c = if is_ascii_digit c then some (c - b'0') else none

-- What a digit adds to the Luhn sum; every second digit is doubled.
unfoldable pub luhn_term : Bool → ℕ → ℕ
luhn_term double d = if double then (if ltb 9 (2 * d) then 2 * d - 9 else 2 * d) else d

-- The loop of `luhn_valid`, over the reversed text. The sum is a `u32`.
unfoldable pub luhn_loop : ℕ → Bool → Text → Bool
unfolding luhn_term
luhn_loop sum double [] = eqb (sum % 10) 0
luhn_loop sum double (c ∷ cs) =
    let rest = luhn_loop ((sum + luhn_term double (c - b'0')) % 2 ^ 32) (not double) cs in
    if is_ascii_digit c then rest else false

unfoldable pub luhn_valid : Text → Bool
unfolding luhn_loop
luhn_valid digits = luhn_loop 0 false (reverse digits)

-- `LuhnValidator::validate`
unfoldable pub luhn_validate : Text → ValidationResult
luhn_validate raw =
    let digits = digits_of raw in
    if ltb (length digits) 13 || ltb 19 (length digits)
    then not_applicable
    else verdict (luhn_valid digits)

-- `k.iter().zip(d.chars()).map(|(k, c)| k * c.to_digit(10).unwrap()).sum()`
unfoldable pub weighted : List ℕ → Text → Option ℕ
unfolding to_digit
weighted (k ∷ ks) (c ∷ cs) = do d ← to_digit c; rest ← weighted ks cs; some (k * d + rest)
weighted _ _ = some 0

abbrev pub inn10_weights : List ℕ
inn10_weights = 2 ∷ 4 ∷ 10 ∷ 3 ∷ 5 ∷ 9 ∷ 4 ∷ 6 ∷ 8 ∷ []

abbrev pub inn12_weights_1 : List ℕ
inn12_weights_1 = 7 ∷ 2 ∷ 4 ∷ 10 ∷ 3 ∷ 5 ∷ 9 ∷ 4 ∷ 6 ∷ 8 ∷ []

abbrev pub inn12_weights_2 : List ℕ
inn12_weights_2 = 3 ∷ 7 ∷ 2 ∷ 4 ∷ 10 ∷ 3 ∷ 5 ∷ 9 ∷ 4 ∷ 6 ∷ 8 ∷ []

-- `d.chars().nth(i).unwrap().to_digit(10).unwrap()`
unfoldable pub digit_at : Text → ℕ → Option ℕ
unfolding to_digit
digit_at d i = do c ← get_elem? d i; to_digit c

-- One check digit: the weighted sum against the digit at `i`.
unfoldable pub check_digit : List ℕ → Text → ℕ → Option Bool
check_digit ks d i = do sum ← weighted ks d; given ← digit_at d i; some (eqb (sum % 11 % 10) given)

unfoldable pub inn10_valid : Text → Option Bool
unfolding check_digit
inn10_valid d = if not (eqb (length d) 10) then some false else check_digit inn10_weights d 9

unfoldable pub inn12_valid : Text → Option Bool
unfolding check_digit
inn12_valid d = if not (eqb (length d) 12) then some false else do
  first ← check_digit inn12_weights_1 d 10
  if first then check_digit inn12_weights_2 d 11 else some false

-- `InnValidator::validate`
unfoldable pub inn_validate : Text → Option ValidationResult
inn_validate raw =
    let digits = digits_of raw in
    if eqb (length digits) 10
    then (inn10_valid digits >>= λ ok. some (verdict ok))
    else if eqb (length digits) 12
    then (inn12_valid digits >>= λ ok. some (verdict ok))
    else some not_applicable

abbrev pub snils_weights : List ℕ
snils_weights = 9 ∷ 8 ∷ 7 ∷ 6 ∷ 5 ∷ 4 ∷ 3 ∷ 2 ∷ 1 ∷ []

-- The control number of a sum, 0 for 100 and 101.
unfoldable pub snils_control : ℕ → ℕ
snils_control sum =
    let cs = if ltb sum 100 then sum else if eqb sum 100 || eqb sum 101 then 0 else sum % 101 in
    if eqb cs 100 then 0 else cs

unfoldable pub snils_valid : Text → Option Bool
unfolding snils_control
snils_valid d = if not (eqb (length d) 11) then some false else do
  sum ← weighted snils_weights (take 9 d)
  tens ← digit_at d 9
  ones ← digit_at d 10
  some (eqb (snils_control sum) (10 * tens + ones))

-- `SnilsValidator::validate`
unfoldable pub snils_validate : Text → Option ValidationResult
snils_validate raw =
    let digits = digits_of raw in
    if not (eqb (length digits) 11)
    then some not_applicable
    else do ok ← snils_valid digits; some (verdict ok)
