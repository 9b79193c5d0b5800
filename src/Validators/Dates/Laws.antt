-- ===== src/Validators/Dates/Laws.antt =====
-- Every date that `parse_date` finds is in the calendar, and it reads back written dates.
use alfavibe_hack.Prelude.{
  ℕ, ◌%◌, ◌^◌, ◌≤◌, ◌<◌, ◌≡◌, refl, ◌∙◌, ◌≢◌, ◌⊎◌, true, false, List, [], ◌∷◌, ◌++◌, some, Text,
  is_ascii_digit, All, arith, append-nil, append_assoc, filter,
}
use alfavibe_hack.Validators.Luhn.{IsDigit}
use alfavibe_hack.Validators.Dates.{
  tokens_from, is_nonempty, numeral, parse_u32, numbers, days_in_month, valid_ymd, interpret, three,
  parse_date,
}

-- The days of the months of the Gregorian calendar.
abbrev pub IsLeapYear : ℕ → Type 0
IsLeapYear y = ((y % 4 ≡ 0) × (y % 100 ≢ 0)) ⊎ (y % 400 ≡ 0)

abbrev pub IsLongMonth : ℕ → Type 0
IsLongMonth m = (m ≢ 2) × (m ≢ 4) × (m ≢ 6) × (m ≢ 9) × (m ≢ 11)

-- Year, month and day of a calendar date.
pub record IsDate (y m d : ℕ) : Type 0 where
  pub month : (1 ≤ m) × (m ≤ 12)
  pub day : (1 ≤ d) × (d ≤ 31)
  pub long : d ≡ 31 → IsLongMonth m
  pub february : m ≡ 2 → d ≤ 29
  pub leap : m ≡ 2 → d ≡ 29 → IsLeapYear y

valid_ymd-IsDate : (y m d : ℕ) → valid_ymd y m d ≡ true → IsDate y m d
unfolding valid_ymd days_in_month
valid_ymd-IsDate y m d h = record {
  month = ground arith;
  day = ground arith;
  long = λ e. ground arith;
  february = λ e. ground arith;
  leap = λ e f. ground arith;
}

IsDate-valid_ymd : (y m d : ℕ) → IsDate y m d → valid_ymd y m d ≡ true
unfolding valid_ymd days_in_month
IsDate-valid_ymd y m d v = ground (arith, v.long, v.february, v.leap)

interpret_sound :
    (a b c y m d : ℕ) → interpret a b c ≡ some (y, m, d) → (1900 ≤ y) × (y ≤ 2100) × IsDate y m d
unfolding interpret
interpret_sound a b c y m d h = ground (arith, valid_ymd-IsDate y m d)

three_sound :
    (ns : List ℕ) (y m d : ℕ) → three ns ≡ some (y, m, d) → (1900 ≤ y) × (y ≤ 2100) × IsDate y m d
three_sound (a ∷ b ∷ c ∷ []) y m d h = interpret_sound a b c y m d h
three_sound _ y m d h = cc

-- Whatever the text, a date that is found in it lies between 1900 and 2100 and is in the calendar.
pub parse_date_sound :
    (raw : Text) (y m d : ℕ)
    → parse_date raw ≡ some (y, m, d)
    → (1900 ≤ y) × (y ≤ 2100) × IsDate y m d
unfolding parse_date
parse_date_sound raw y m d h =
    three_sound (numbers (filter is_nonempty (tokens_from [] raw))) y m d h

-- `t` is a number written in digits, with leading zeros or without.
pub record Writes (t : Text) (n : ℕ) : Type 0 where
  pub digits : All IsDigit t
  pub some_digit : is_nonempty t ≡ true
  pub value : numeral t ≡ n

tokens_from-digits : (piece t : Text) → All IsDigit t → tokens_from piece t ≡ (piece ++ t) ∷ []
unfolding tokens_from
tokens_from-digits piece [] h = rw (append-nil piece) refl
tokens_from-digits piece (c ∷ t) (d, h) =
    rw d (tokens_from-digits (piece ++ c ∷ []) t h ∙ rw (append_assoc piece (c ∷ []) t) refl)

tokens_from-append :
    (piece t : Text) (s : ℕ) (rest : Text)
    → All IsDigit t
    → is_ascii_digit s ≡ false
    → tokens_from piece (t ++ s ∷ rest) ≡ (piece ++ t) ∷ tokens_from [] rest
unfolding tokens_from
tokens_from-append piece [] s rest h o = rw (o, append-nil piece) refl
tokens_from-append piece (c ∷ t) s rest (d, h) o =
    rw d
      (tokens_from-append (piece ++ c ∷ []) t s rest h o ∙ rw (append_assoc piece (c ∷ []) t) refl)

parse_u32-eq : (t : Text) (n : ℕ) → Writes t n → n < 2 ^ 32 → parse_u32 t ≡ some n
unfolding parse_u32
parse_u32-eq t n w h = ground (arith, w.value)

numbers-cons :
    (t : Text) (n : ℕ) (ts : List Text)
    → Writes t n
    → n < 2 ^ 32
    → numbers (t ∷ ts) ≡ n ∷ numbers ts
unfolding numbers
numbers-cons t n ts w h = rw (parse_u32-eq t n w h, numbers) refl

-- Three numbers with one separator between each two are read as those numbers.
parse_date-groups :
    (t u v : Text) (p q : ℕ) (a b c : ℕ)
    → Writes t a
    → Writes u b
    → Writes v c
    → is_ascii_digit p ≡ false
    → is_ascii_digit q ≡ false
    → a < 2 ^ 32
    → b < 2 ^ 32
    → c < 2 ^ 32
    → parse_date (t ++ p ∷ (u ++ q ∷ v)) ≡ interpret a b c
unfolding parse_date
parse_date-groups t u v p q a b c ta ub vc op oq la lb lc =
    rw
      (
        tokens_from-append [] t p (u ++ q ∷ v) ta.digits op,
        tokens_from-append [] u q v ub.digits oq,
        tokens_from-digits [] v vc.digits,
        ta.some_digit,
        ub.some_digit,
        vc.some_digit,
        numbers-cons t a (u ∷ v ∷ []) ta la,
        numbers-cons u b (v ∷ []) ub lb,
        numbers-cons v c [] vc lc,
      )
      refl

interpret-dmy : (y m d : ℕ) → 1900 ≤ y → y ≤ 2100 → IsDate y m d → interpret d m y ≡ some (y, m, d)
unfolding interpret
interpret-dmy y m d lo hi v = ground (arith, v.day, IsDate-valid_ymd y m d v)

interpret-ymd : (y m d : ℕ) → 1900 ≤ y → y ≤ 2100 → IsDate y m d → interpret y m d ≡ some (y, m, d)
unfolding interpret
interpret-ymd y m d lo hi v = ground (arith, v.day, IsDate-valid_ymd y m d v)

-- A date between 1900 and 2100, written day, month, year or year, month, day, in digits with or
-- without leading zeros and one other byte between each two numbers, is read back as that date: the
-- month is never taken for the day, also where both orders would be dates.
pub parse_date_roundtrip :
    (y m d : ℕ) (ty tm td : Text) (p q : ℕ)
    → 1900 ≤ y
    → y ≤ 2100
    → IsDate y m d
    → Writes ty y
    → Writes tm m
    → Writes td d
    → is_ascii_digit p ≡ false
    → is_ascii_digit q ≡ false
    → (parse_date (td ++ p ∷ (tm ++ q ∷ ty)) ≡ some (y, m, d))
      × (parse_date (ty ++ p ∷ (tm ++ q ∷ td)) ≡ some (y, m, d))
parse_date_roundtrip y m d ty tm td p q lo hi v wy wm wd op oq = (
  parse_date-groups td tm ty p q d m y wd wm wy op oq (omega (arith, v.day))
        (omega (arith, v.month)) (omega arith)
      ∙ interpret-dmy y m d lo hi v,
  parse_date-groups ty tm td p q y m d wy wm wd op oq (omega arith) (omega (arith, v.month))
        (omega (arith, v.day))
      ∙ interpret-ymd y m d lo hi v,
)
