-- ===== src/Detect/Dates.antt =====
-- src/service/detect/dates.rs: the detectors of dates in digits and in words.
use alfavibe_hack.Prelude.{
  ◌>>=◌, ℕ, ◌^◌, ◌&&◌, List, [], ◌∷◌, ◌++◌, Option, none, some, Text, text_Eq, utf8, leb, ltb,
  parse_usize, if◌then◌else◌,
}
use alfavibe_hack.Prelude.Maps.{contains_key}
use alfavibe_hack.Domain.Candidate.{Candidate, regex, no_signals}
use alfavibe_hack.Domain.Document.{Document}
use alfavibe_hack.Domain.Float32.{Float32}
use alfavibe_hack.Domain.PdType.{birth_date, passport_issue_date, date}
use alfavibe_hack.Domain.Unicode.{Unicode, split_whitespace}
use alfavibe_hack.Context.{has_any_prefix}
use alfavibe_hack.Validators.Dates.{parse_date}
use alfavibe_hack.Detect.Numwords.{parse_numeral_words}
use alfavibe_hack.Detect.{
  FindIter, CapturesIter, Found, Captures, collect, guarded, matched, around, origin, emit,
  in_context,
}

-- `MONTHS`
unfoldable pub months : List (Text × ℕ)
months =
    (utf8 "января", 1)
    ∷ (utf8 "январь", 1)
    ∷ (utf8 "янв", 1)
    ∷ (utf8 "january", 1)
    ∷ (utf8 "jan", 1)
    ∷ (utf8 "февраля", 2)
    ∷ (utf8 "февраль", 2)
    ∷ (utf8 "фев", 2)
    ∷ (utf8 "february", 2)
    ∷ (utf8 "feb", 2)
    ∷ (utf8 "марта", 3)
    ∷ (utf8 "март", 3)
    ∷ (utf8 "мар", 3)
    ∷ (utf8 "march", 3)
    ∷ (utf8 "mar", 3)
    ∷ (utf8 "апреля", 4)
    ∷ (utf8 "апрель", 4)
    ∷ (utf8 "апр", 4)
    ∷ (utf8 "april", 4)
    ∷ (utf8 "apr", 4)
    ∷ (utf8 "мая", 5)
    ∷ (utf8 "май", 5)
    ∷ (utf8 "may", 5)
    ∷ (utf8 "июня", 6)
    ∷ (utf8 "июнь", 6)
    ∷ (utf8 "июн", 6)
    ∷ (utf8 "june", 6)
    ∷ (utf8 "jun", 6)
    ∷ (utf8 "июля", 7)
    ∷ (utf8 "июль", 7)
    ∷ (utf8 "июл", 7)
    ∷ (utf8 "july", 7)
    ∷ (utf8 "jul", 7)
    ∷ (utf8 "августа", 8)
    ∷ (utf8 "август", 8)
    ∷ (utf8 "авг", 8)
    ∷ (utf8 "august", 8)
    ∷ (utf8 "aug", 8)
    ∷ (utf8 "сентября", 9)
    ∷ (utf8 "сентябрь", 9)
    ∷ (utf8 "сен", 9)
    ∷ (utf8 "сент", 9)
    ∷ (utf8 "september", 9)
    ∷ (utf8 "sep", 9)
    ∷ (utf8 "октября", 10)
    ∷ (utf8 "октябрь", 10)
    ∷ (utf8 "окт", 10)
    ∷ (utf8 "october", 10)
    ∷ (utf8 "oct", 10)
    ∷ (utf8 "ноября", 11)
    ∷ (utf8 "ноябрь", 11)
    ∷ (utf8 "ноя", 11)
    ∷ (utf8 "november", 11)
    ∷ (utf8 "nov", 11)
    ∷ (utf8 "декабря", 12)
    ∷ (utf8 "декабрь", 12)
    ∷ (utf8 "дек", 12)
    ∷ (utf8 "december", 12)
    ∷ (utf8 "dec", 12)
    ∷ []

-- `parse::<u32>()`
unfoldable pub parse_u32 : Text → Option ℕ
parse_u32 t = do n ← parse_usize t; if ltb n (2 ^ 32) then some n else none

-- The words before the first month; `none` without one.
unfoldable pub before_month : List Text → Option (List Text)
unfolding months
before_month [] = none
before_month (w ∷ ws) =
    let more = before_month ws in
    if contains_key w months then some [] else (more >>= λ front. some (w ∷ front))

module _ (u : Unicode) (F : Float32) where
  abbrev Pushed : Type 0
  Pushed = Option (List (Candidate F.Carrier))

  -- `classify_date` and the push: what stands around a date says whose it is.
  unfoldable pub classify_date : Document → Found → F.Carrier → Pushed
  classify_date doc m score = do
    span ← origin doc m
    w ← around doc m
    if has_any_prefix u w
          (utf8 "рожден" ∷ utf8 "родил" ∷ utf8 "рождён" ∷ utf8 "dob" ∷ utf8 "birth" ∷ [])
        then emit birth_date span score (regex (utf8 "date")) in_context
        else if has_any_prefix u w (utf8 "выдач" ∷ utf8 "выдан" ∷ utf8 "issue" ∷ [])
        then emit passport_issue_date span score (regex (utf8 "date")) in_context
        else emit date span score (regex (utf8 "date")) no_signals

  unfoldable pub numeric_round : Document → Found → Pushed
  unfolding classify_date
  numeric_round doc m = guarded doc m (do
    raw ← matched doc m
    elim (parse_date raw) [ none ↦ some [] | some _ ↦ classify_date doc m (F.of_millis 950) ])

  -- The three groups take part in every match; `none` is the panic of an `unwrap`, also of the one
  -- on `parse`.
  unfoldable pub text_round : Document → Captures → Pushed
  unfolding classify_date parse_u32 months
  text_round doc caps = guarded doc caps.whole (do
    c1 ← caps.group 1
    day_text ← matched doc c1
    day ← parse_u32 day_text
    c2 ← caps.group 2
    month_word ← matched doc c2
    c3 ← caps.group 3
    year_text ← matched doc c3
    year ← parse_u32 year_text
    if contains_key month_word months
          && (leb 1 day && leb day 31)
          && (leb 1900 year && leb year 2100)
        then classify_date doc caps.whole (F.of_millis 950)
        else some [])

  unfoldable pub date_detect : FindIter → CapturesIter → Document → Pushed
  unfolding numeric_round text_round
  date_detect re_numeric re_text doc = do
    numbers ← collect (numeric_round doc) (re_numeric doc.norm)
    words ← collect (text_round doc) (re_text doc.norm)
    some (numbers ++ words)

  unfoldable pub numeral_round : Document → Found → Pushed
  unfolding classify_date before_month
  numeral_round doc m = do
    text ← matched doc m
    elim (before_month (split_whitespace u text)) [
      | none ↦ some []
      | some day_words ↦ elim (parse_numeral_words day_words) [
        | none ↦ some []
        | some _ ↦ classify_date doc m (F.of_millis 900)
      ]
    ]

  unfoldable pub numeral_date_detect : FindIter → Document → Pushed
  unfolding numeral_round
  numeral_date_detect re doc = collect (numeral_round doc) (re doc.norm)
