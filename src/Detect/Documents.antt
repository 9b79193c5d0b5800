-- ===== src/Detect/Documents.antt =====
-- src/service/detect/documents.rs: the detectors of driving licences, of places of birth and of the
-- authority that issued a passport.
pub mod Captured
use alfavibe_hack.Prelude.{
  ◌>>=◌, ℕ, ◌+◌, Bool, true, false, not, ◌&&◌, ◌||◌, List, [], ◌∷◌, ◌++◌, Option, none, some,
  reverse, Text, text_Eq, utf8, chars, length, leb, eqb, any, drop, slice?, total_length,
  is_ascii_digit, if◌then◌else◌, ◌==◌,
}
use alfavibe_hack.Domain.Candidate.{Candidate, regex}
use alfavibe_hack.Domain.Document.{Document}
use alfavibe_hack.Domain.Float32.{Float32}
use alfavibe_hack.Domain.PdType.{driver_license, birth_place, passport_issuer}
use alfavibe_hack.Domain.Unicode.{Unicode, contains, joined, leading_white, skip_white, starts_with}
use alfavibe_hack.Context.{has_any_prefix}
use alfavibe_hack.Validators.Dates.{parse_date}
use alfavibe_hack.Detect.{FindIter, Found, collect, guarded, around, origin, emit, in_context}

abbrev is_value : Text → Bool
is_value [] = false
is_value (_ ∷ _) = true

module _ (u : Unicode) where
  -- The letters that a text ends in; its characters come last one first.
  abbrev last_letters : List Text → ℕ
  last_letters [] = 0
  last_letters (c ∷ cs) = let more = last_letters cs in if u.is_alphabetic c then 1 + more else 0

  -- `is_abbreviation_dot`: the dot follows a word of one to three letters.
  unfoldable pub is_abbreviation_dot : List Text → Bool
  is_abbreviation_dot before = leb 1 (last_letters before) && leb (last_letters before) 3

  -- The loop of `capture_value` over `char_indices`: the characters before the end of the value.
  unfoldable pub cut : ℕ → Bool → ℕ → List Text → List Text → List Text
  unfolding is_abbreviation_dot
  cut max_bytes stop_at_dot i before [] = []
  cut max_bytes stop_at_dot i before (c ∷ cs) =
      let more = cut max_bytes stop_at_dot (i + length c) (c ∷ before) cs in
      if leb max_bytes i
        || (c == utf8 ";" || c == 10 ∷ [] || c == utf8 ",")
        || stop_at_dot && c == utf8 "." && not (is_abbreviation_dot before)
      then []
      else c ∷ more

  -- `trim_end` of a text given by its characters
  abbrev trim_end : List Text → Text
  trim_end cs = joined (reverse (skip_white u (reverse cs)))

  -- `capture_value`: the white space that is passed over, and the value.
  unfoldable pub capture_value : Text → ℕ → ℕ → Bool → Option (ℕ × Text)
  unfolding cut
  capture_value norm start max_bytes stop_at_dot = do
    rest ← slice? start (length norm) norm
    some (
      total_length (leading_white u (chars rest)),
      trim_end (cut max_bytes stop_at_dot 0 [] (skip_white u (chars rest))),
    )

  abbrev is_date_byte : ℕ → Bool
  is_date_byte c = is_ascii_digit c || eqb c b'.' || eqb c b'-' || eqb c b'/'

  abbrev date_bytes : Text → Text
  date_bytes [] = []
  date_bytes (c ∷ cs) = if is_date_byte c then c ∷ date_bytes cs else []

  abbrev date_len : Text → Text → Option (ℕ × ℕ × ℕ) → ℕ
  date_len value [] _ = 0
  date_len value (c ∷ cs) none = 0
  date_len value (c ∷ cs) (some _) =
      length (c ∷ cs) + total_length (leading_white u (chars (drop (length (c ∷ cs)) value)))

  -- `leading_date_len`
  unfoldable pub leading_date_len : Text → ℕ
  leading_date_len value = date_len value (date_bytes value) (parse_date (date_bytes value))

module _ (u : Unicode) (F : Float32) where
  abbrev Pushed : Type 0
  Pushed = Option (List (Candidate F.Carrier))

  unfoldable pub licence_round : Document → Found → Pushed
  licence_round doc m = guarded doc m (do
    w ← around doc m
    if has_any_prefix u w (
            utf8 "водительск"
            ∷ utf8 "удостоверен"
            ∷ utf8 "прав"
            ∷ utf8 "driver"
            ∷ utf8 "license"
            ∷ [])
          || contains (utf8 "в/у") w
          || contains (utf8 "в" ++ 92 ∷ utf8 "у") w
        then (origin doc m >>= λ span.
            emit driver_license span (F.of_millis 900) (regex (utf8 "driver_license")) in_context)
        else some [])

  unfoldable pub driver_license_detect : FindIter → Document → Pushed
  unfolding licence_round
  driver_license_detect re doc = collect (licence_round doc) (re doc.norm)

  -- The words of a place, besides the lists of cities and countries.
  unfoldable pub has_toponym : List Text → List Text → Text → Bool
  has_toponym cities countries value =
      any (λ k. contains k value)
        (utf8 "г."
          ∷ utf8 "город"
          ∷ utf8 "пос."
          ∷ utf8 "с."
          ∷ utf8 "дер."
          ∷ utf8 "обл."
          ∷ utf8 "край"
          ∷ utf8 "республика"
          ∷ [])
      || any (λ c. contains c value) cities
      || any (λ c. contains c value) countries

  -- The push of the range that a captured value has behind `after`.
  unfoldable pub push_birth_place : Document → ℕ → ℕ × Text → Pushed
  push_birth_place doc after (lead, value) = do
    span ← origin doc (record { start = after + lead; end = after + lead + length value })
    emit birth_place span (F.of_millis 900) (regex (utf8 "birth_place")) in_context

  unfoldable pub birth_place_round : List Text → List Text → Document → Found → Pushed
  unfolding has_toponym push_birth_place
  birth_place_round cities countries doc m = do
    captured ← capture_value u doc.norm m.end 100 false
    if is_value captured.1 && has_toponym cities countries captured.1
        then push_birth_place doc m.end captured
        else some []

  unfoldable pub birth_place_detect : List Text → List Text → FindIter → Document → Pushed
  unfolding birth_place_round
  birth_place_detect cities countries re doc =
      collect (birth_place_round cities countries doc) (re doc.norm)

  unfoldable pub has_authority : List Text → Text → Bool
  has_authority authorities value =
      any (λ a. starts_with a value) authorities
      || any (λ a. starts_with a value)
          (utf8 "уфмс"
            ∷ utf8 "оуфмс"
            ∷ utf8 "гу мвд"
            ∷ utf8 "умвд"
            ∷ utf8 "омвд"
            ∷ utf8 "овд"
            ∷ utf8 "мвд"
            ∷ utf8 "отделом"
            ∷ utf8 "отделением"
            ∷ utf8 "мц"
            ∷ [])

  unfoldable pub push_issuer : Document → ℕ → ℕ × Text → Pushed
  push_issuer doc after (lead, value) = do
    span ← origin doc (record { start = after + lead; end = after + lead + length value })
    emit passport_issuer span (F.of_millis 900) (regex (utf8 "passport_issuer")) in_context

  unfoldable pub issuer_round : List Text → Document → Found → Pushed
  unfolding has_authority push_issuer
  issuer_round authorities doc m = do
    rest ← slice? m.end (length doc.norm) doc.norm
    let after = m.end + leading_date_len u rest in
        do
          captured ← capture_value u doc.norm after 150 true
          if is_value captured.1 && has_authority authorities captured.1
              then push_issuer doc after captured
              else some []

  unfoldable pub passport_issuer_detect : List Text → FindIter → Document → Pushed
  unfolding issuer_round
  passport_issuer_detect authorities re doc = collect (issuer_round authorities doc) (re doc.norm)
