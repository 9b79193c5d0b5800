-- ===== src/Tests/Values.antt =====
-- Validators and masks on values.
use alfavibe_hack.Prelude.{
  chars, slice?, is_char_boundary, ℕ, ◌≡◌, ◌≤◌, refl, true, [], ◌∷◌, ◌++◌, some, Text, utf8,
  digits_of, length, arith,
}
use alfavibe_hack.Domain.Candidate
use alfavibe_hack.Domain.Candidate.{Candidate}
use alfavibe_hack.Domain.Document.{Document, align_from, original_slice}
use alfavibe_hack.Domain.PdType.{card_number}
use alfavibe_hack.Domain.Unicode.{ascii, join_spaces, split, split_whitespace}
use alfavibe_hack.Relevance.{normalize_for_compare, spaced, window_original}
use alfavibe_hack.Tests.Samples.{found_at}
use alfavibe_hack.Context.{align_back, window_end, window_start}
use alfavibe_hack.Mask.Partial.{partial_text, partial_text-digits}
use alfavibe_hack.Mask.Synthetic.{synthetic_card, synthetic_inn}
use alfavibe_hack.Mask.Synthetic.Card.{synthetic_card-valid}
use alfavibe_hack.Mask.Synthetic.Number.{synthetic_inn-valid}
use alfavibe_hack.Validators.{inn_validate, luhn_valid, luhn_validate, valid}
use alfavibe_hack.Validators.Dates.{
  days_in_month, interpret, is_leap, numeral, parse_date, parse_u32, valid_ymd,
}
use alfavibe_hack.Validators.Dates.Laws.{IsDate, Writes, parse_date_sound, parse_date_roundtrip}
use alfavibe_hack.Validators.Luhn.{luhn_valid_single_error}

synthetic_card-valid_example : luhn_validate (synthetic_card 20240517) ≡ valid
synthetic_card-valid_example = synthetic_card-valid 20240517

synthetic_inn-valid_example :
    (text : Text) × (synthetic_inn 7 ≡ some text) × (inn_validate text ≡ some valid)
synthetic_inn-valid_example = synthetic_inn-valid 7

abbrev eight : ℕ
eight = b'8'

passing : luhn_valid (utf8 "1" ++ eight ∷ []) ≡ true
unfolding luhn_valid
passing = refl

luhn_valid_single_error_example : eight ≡ eight
luhn_valid_single_error_example =
    luhn_valid_single_error (utf8 "1") [] eight eight (refl, (refl, tt)) (refl, (refl, tt))
      (omega arith) passing passing

seventh_of_may : IsDate 1990 5 7
seventh_of_may = record {
  month = (omega arith, omega arith);
  day = (omega arith, omega arith);
  long = λ e. absurd (ground arith);
  february = λ e. absurd (ground arith);
  leap = λ e f. absurd (ground arith);
}

Writes-year : Writes (utf8 "1990") 1990
unfolding numeral
Writes-year = record {
  digits = (refl, (refl, (refl, (refl, tt))));
  some_digit = refl;
  value = refl;
}

Writes-month : Writes (utf8 "05") 5
unfolding numeral
Writes-month = record { digits = (refl, (refl, tt)); some_digit = refl; value = refl }

Writes-day : Writes (utf8 "7") 7
unfolding numeral
Writes-day = record { digits = (refl, tt); some_digit = refl; value = refl }

parse_date_roundtrip_example :
    (parse_date (utf8 "7" ++ b'.' ∷ (utf8 "05" ++ b'.' ∷ utf8 "1990")) ≡ some (1990, 5, 7))
    × (parse_date (utf8 "1990" ++ b'.' ∷ (utf8 "05" ++ b'.' ∷ utf8 "7")) ≡ some (1990, 5, 7))
parse_date_roundtrip_example =
    parse_date_roundtrip 1990 5 7 (utf8 "1990") (utf8 "05") (utf8 "7") b'.' b'.' (omega arith)
      (omega arith) seventh_of_may Writes-year Writes-month Writes-day refl refl

dated : parse_date (utf8 "07.05.1990") ≡ some (1990, 5, 7)
unfolding parse_date parse_u32 numeral interpret valid_ymd days_in_month is_leap
dated = refl

parse_date_sound_example : (1900 ≤ 1990) × (1990 ≤ 2100) × IsDate 1990 5 7
parse_date_sound_example = parse_date_sound (utf8 "07.05.1990") 1990 5 7 dated

partial_text-digits_example : length (digits_of (partial_text 4 (utf8 "4532 0151 1283 0366"))) ≤ 4
partial_text-digits_example = partial_text-digits 4 (utf8 "4532 0151 1283 0366")

-- A card number beside the address of an office.
abbrev beside : Document
beside = record {
  original = utf8 "tverskaya 1: 4532";
  norm = utf8 "tverskaya 1: 4532";
  norm_to_orig = [];
}

abbrev card_candidate : Candidate ℕ
card_candidate = found_at card_number 13 17 900

sliced_card : original_slice beside (Candidate.span card_candidate) ≡ some (utf8 "4532")
unfolding original_slice slice? is_char_boundary
sliced_card = refl

around_card : window_original beside card_candidate 60 60 ≡ some (utf8 "tverskaya 1: 4532")
unfolding window_original window_start window_end align_back align_from slice? is_char_boundary
around_card = refl

words_card :
    split_whitespace ascii (normalize_for_compare ascii (utf8 "tverskaya 1: 4532"))
    ≡ [] ++ ((utf8 "tverskaya" ∷ utf8 "1" ∷ []) ++ (utf8 "4532" ∷ []))
unfolding split_whitespace normalize_for_compare spaced chars join_spaces split
words_card = refl
