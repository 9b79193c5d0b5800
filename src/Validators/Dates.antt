-- ===== src/Validators/Dates.antt =====
-- `parse_date` of src/service/detect/validators.rs: a calendar date out of three groups of digits.
pub mod Laws
use alfavibe_hack.Prelude.{
  ℕ, ◌+◌, ◌-◌, ◌*◌, ◌%◌, ◌^◌, Bool, true, false, not, ◌&&◌, ◌||◌, List, [], ◌∷◌, ◌++◌, Option, none,
  some, Text, leb, ltb, eqb, if◌then◌else◌, is_ascii_digit, foldl, filter,
}
use alfavibe_hack.Validators.{ValidationResult, valid, invalid}

-- `raw.split(|c| !c.is_ascii_digit())`, with the piece read so far.
tokens_from : Text → Text → List Text
tokens_from piece [] = piece ∷ []
tokens_from piece (c ∷ cs) =
    let longer = tokens_from (piece ++ c ∷ []) cs in
    let closed = piece ∷ tokens_from [] cs in if is_ascii_digit c then longer else closed

abbrev is_nonempty : Text → Bool
is_nonempty [] = false
is_nonempty (_ ∷ _) = true

-- `s.parse::<u32>()` of digits
unfoldable pub numeral : Text → ℕ
numeral t = foldl (λ n c. 10 * n + (c - b'0')) 0 t

unfoldable pub parse_u32 : Text → Option ℕ
parse_u32 t = if ltb (numeral t) (2 ^ 32) then some (numeral t) else none

-- `filter_map(|s| s.parse().ok())`: a number that does not fit is passed over.
numbers : List Text → List ℕ
numbers [] = []
numbers (t ∷ ts) = elim (parse_u32 t) [ none ↦ numbers ts | some n ↦ n ∷ numbers ts ]

unfoldable pub is_leap : ℕ → Bool
is_leap year = eqb (year % 4) 0 && not (eqb (year % 100) 0) || eqb (year % 400) 0

unfoldable pub days_in_month : ℕ → ℕ → ℕ
unfolding is_leap
days_in_month year month =
    if eqb month 4 || eqb month 6 || eqb month 9 || eqb month 11
    then 30
    else if eqb month 2
    then (if is_leap year then 29 else 28)
    else 31

unfoldable pub valid_ymd : ℕ → ℕ → ℕ → Bool
valid_ymd year month day =
    leb 1 month && leb month 12 && not (eqb day 0) && leb day (days_in_month year month)

abbrev in_range : ℕ → Bool
in_range year = leb 1900 year && leb year 2100

-- The first of two orders of month and day that is a date.
unfoldable pub first_valid : ℕ → ℕ → ℕ → Option (ℕ × ℕ × ℕ)
first_valid year month day =
    if valid_ymd year month day
    then some (year, month, day)
    else if valid_ymd year day month
    then some (year, day, month)
    else none

-- A first number above 31 is a year; otherwise the third is, a small one in this century. As i32 a
-- number from 2 ^ 31 on is negative and out of range, as it is here.
unfoldable pub interpret : ℕ → ℕ → ℕ → Option (ℕ × ℕ × ℕ)
unfolding first_valid
interpret a b c =
    if ltb 31 a
    then (if in_range a then first_valid a b c else none)
    else let year = if ltb 100 c then c else 2000 + c in
      if in_range year then first_valid year b a else none

abbrev three : List ℕ → Option (ℕ × ℕ × ℕ)
three (a ∷ b ∷ c ∷ []) = interpret a b c
three _ = none

unfoldable pub parse_date : Text → Option (ℕ × ℕ × ℕ)
unfolding tokens_from numbers
parse_date raw = three (numbers (filter is_nonempty (tokens_from [] raw)))

-- `DateValidator::validate`
unfoldable pub date_validate : Text → ValidationResult
date_validate raw = elim (parse_date raw) [ none ↦ invalid | some _ ↦ ValidationResult.valid ]
