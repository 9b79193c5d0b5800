-- ===== src/Tests/Detected.antt =====
-- The detectors of src/service/detect on concrete texts, with the example texts of its own tests.
use alfavibe_hack.Prelude.{
  ℕ, ◌≡◌, refl, true, List, [], ◌∷◌, Option, none, some, Text, text_Eq, text_eq, chars, utf8,
  slice?, is_char_boundary, In, here, there, All, not, ◌&&◌, arith, map, digits_of,
}
use alfavibe_hack.Prelude.Maps.{get}
use alfavibe_hack.Domain.Candidate.{
  Candidate, candidate, nil, no_signals, span, pd_type, score, regex,
}
use alfavibe_hack.Domain.Document.{Document, new, to_original, is_ascii_fast_path, align_from}
use alfavibe_hack.Domain.Float32.{millis}
use alfavibe_hack.Domain.PdType.{PdType, card_number, org_inn, addr_street, addr_house}
use alfavibe_hack.Domain.Span.{Span}
use alfavibe_hack.Domain.Unicode.{ascii, contains, split}
use alfavibe_hack.Context.{
  is_boundary, is_cyrillic, window, window_start, align_back, window_end, has_any_word, has_word,
}
use alfavibe_hack.Validators.{
  luhn_validate, luhn_valid, inn_validate, inn10_valid, weighted, digit_at, check_digit, to_digit,
}
use alfavibe_hack.Detect.{FindIter, Found, collect, guarded}
use alfavibe_hack.Detect.Address.{Part, chains, flatten}
use alfavibe_hack.Detect.Address.Chained.{Linked, chains-flatten}
use alfavibe_hack.Detect.Card.{card_number_detect}
use alfavibe_hack.Detect.Inn.{inn_detect, org_context}
use alfavibe_hack.Detect.Phone.{validate_rf}
use alfavibe_hack.Detect.Fio.{is_patronymic, is_surname_shape}
use alfavibe_hack.Detect.Card.Exact.{IsRange, FindsCards, card_number_detect-exact}
use alfavibe_hack.Detect.Documents.Captured.{Captured}
use alfavibe_hack.Detect.Numwords.{dict, parse_numeral_words}
use alfavibe_hack.Detect.Numwords.Composed.{parse_numeral_words-append}

abbrev card_text : Text
card_text = utf8 "card 4532 0151 1283 0366"

-- The match of a search in `card_text`.
abbrev card_match : Found
card_match = record { start = 5; end = 24 }

abbrev card_re : FindIter
card_re norm = card_match ∷ []

abbrev same : Text → List Text
same c = c ∷ []

card_re-IsRange :
    (m : Found) → In m (card_re (new same card_text).norm) → IsRange (new same card_text).norm m
unfolding new is_ascii_fast_path is_char_boundary
card_re-IsRange m here = (omega arith, omega arith, refl, refl)
card_re-IsRange m (there i) = elim i [ ]

card_number_detect-exact_example : FindsCards millis card_re (new same card_text)
card_number_detect-exact_example =
    card_number_detect-exact millis same card_re card_text (omega arith) card_re-IsRange

numerals_1985 :
    parse_numeral_words (utf8 "тысяча" ∷ utf8 "девятьсот" ∷ utf8 "восемьдесят" ∷ utf8 "пятого" ∷ [])
    ≡ some 1985
unfolding parse_numeral_words get text_eq
numerals_1985 = refl

two : get (utf8 "две") dict ≡ some 2
unfolding dict get text_eq
two = refl

third : get (utf8 "третьего") dict ≡ some 3
unfolding dict get text_eq
third = refl

thousand_ : get (utf8 "тысячи") dict ≡ some 1000
unfolding dict get text_eq
thousand_ = refl

two_ : parse_numeral_words (utf8 "две" ∷ []) ≡ some 2
unfolding parse_numeral_words get text_eq
two_ = refl

third_ : parse_numeral_words (utf8 "третьего" ∷ []) ≡ some 3
unfolding parse_numeral_words get text_eq
third_ = refl

parse_numeral_words-append_example :
    parse_numeral_words (utf8 "две" ∷ utf8 "тысячи" ∷ utf8 "третьего" ∷ []) ≡ some 2003
parse_numeral_words-append_example =
    parse_numeral_words-append (utf8 "две" ∷ []) (utf8 "третьего" ∷ []) (utf8 "тысячи") 2 3
      ((2, two, omega arith), tt) ((3, third, omega arith), tt) thousand_ two_ (omega arith) third_

-- Each candidate by its type, its score and its place.
abbrev shown : Option (List (Candidate ℕ)) → Option (List (PdType × ℕ × Span))
shown none = none
shown (some cs) = some (map (λ c. (pd_type c, score c, span c)) cs)

card_found :
    shown (card_number_detect millis card_re (new same card_text))
    ≡ some ((card_number, 950, record { start = 5; end = 24 }) ∷ [])
unfolding new card_number_detect collect guarded is_boundary is_ascii_fast_path is_cyrillic slice?
    digits_of to_original luhn_validate luhn_valid text_eq
card_found = refl

org_inn_found :
    shown (
      inn_detect ascii millis
        (λ norm. record { start = 4; end = 14 } ∷ [])
        (new same (utf8 "inn 7707083893")))
    ≡ some ((org_inn, 850, record { start = 4; end = 14 }) ∷ [])
unfolding new inn_detect collect guarded is_boundary is_ascii_fast_path is_cyrillic slice?
    to_original window window_start align_back window_end align_from inn_validate digits_of
    inn10_valid weighted digit_at has_any_word has_word org_context contains split chars text_eq
    check_digit to_digit
org_inn_found = refl

mobile_valid : validate_rf millis (utf8 "79161234567") ≡ some (true, 900)
unfolding validate_rf
mobile_valid = refl

patronymic_found :
    is_patronymic (utf8 "петрович") && not (is_surname_shape (utf8 "петрович")) ≡ true
unfolding is_patronymic is_surname_shape text_eq
patronymic_found = refl

abbrev street_doc : Document
street_doc = new same (utf8 "st. a, d. 5")

abbrev street : Part ascii millis
street =
    candidate addr_street (record { start = 0; end = 5 }) 700 (regex (utf8 "address")) nil
      no_signals

abbrev house : Part ascii millis
house =
    candidate addr_house (record { start = 7; end = 11 }) 700 (regex (utf8 "address")) nil
      no_signals

one_chain : chains ascii millis street_doc (street ∷ house ∷ []) ≡ some ((street ∷ house ∷ []) ∷ [])
unfolding chains new slice? is_ascii_fast_path chars text_eq
one_chain = refl

chains-flatten_example :
    (flatten ascii millis ((street ∷ house ∷ []) ∷ []) ≡ street ∷ house ∷ [])
    × All (Linked ascii millis street_doc) ((street ∷ house ∷ []) ∷ [])
chains-flatten_example = chains-flatten ascii millis street_doc (street ∷ house ∷ []) one_chain
