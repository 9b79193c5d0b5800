-- ===== src/Detect/Passport.antt =====
-- src/service/detect/passport.rs: the detectors of passport numbers and of the codes of departments,
-- and the check of a series of validators.rs.
use alfavibe_hack.Prelude.{
  ◌>>=◌, ℕ, ◌+◌, ◌-◌, ◌*◌, ◌%◌, Bool, true, false, ◌&&◌, ◌||◌, List, [], ◌∷◌, ◌++◌, Option, some,
  Text, utf8, digits_of, leb, if◌then◌else◌,
}
use alfavibe_hack.Domain.Candidate.{Candidate, regex, no_signals}
use alfavibe_hack.Domain.Document.{Document}
use alfavibe_hack.Domain.Float32.{Float32}
use alfavibe_hack.Domain.PdType.{passport, division_code}
use alfavibe_hack.Domain.Span.{Span}
use alfavibe_hack.Domain.Unicode.{Unicode}
use alfavibe_hack.Context.{has_any_prefix, has_any_word}
use alfavibe_hack.Validators.{ValidationResult, valid, invalid, not_applicable, verdict}
use alfavibe_hack.Detect.{
  FindIter, CapturesIter, Found, Captures, collect, guarded, group_text, matched, around, origin,
  emit, checked, in_context,
}

-- Two digits as a number.
abbrev two : ℕ → ℕ → ℕ
two a b = (a - b'0') * 10 + (b - b'0')

-- The digits of a series: the region, and the year of the form, from 97 to the year after this one.
unfoldable pub series_valid : ℕ → Text → ValidationResult
series_valid year (a ∷ b ∷ c ∷ d ∷ []) =
    if leb 1 (two a b) && leb (two a b) 99
    then verdict (leb 97 (two c d) && leb (two c d) 99 || leb (two c d) ((year % 100 + 1) % 100))
    else invalid
series_valid year _ = not_applicable

-- `PassportSeriesValidator::validate`, with the year that the clock of the `time` crate tells.
unfoldable pub passport_series_validate : ℕ → Text → ValidationResult
unfolding series_valid
passport_series_validate year raw = series_valid year (digits_of raw)

abbrev is_empty : Text → Bool
is_empty [] = true
is_empty (_ ∷ _) = false

module _ (u : Unicode) (F : Float32) where
  abbrev Pushed : Type 0
  Pushed = Option (List (Candidate F.Carrier))

  unfoldable pub passport_judged : Bool → Span → ValidationResult → Pushed
  passport_judged named span valid =
      emit passport span (F.of_millis (if named then 950 else 500)) (regex (utf8 "passport"))
        checked
  passport_judged true span _ =
      emit passport span (F.of_millis 600) (regex (utf8 "passport")) no_signals
  passport_judged false span _ = some []

  unfoldable pub passport_round : ℕ → Document → Captures → Pushed
  unfolding passport_judged
  passport_round year doc caps = guarded doc caps.whole (do
    s1 ← group_text doc (caps.name (utf8 "s1"))
    s2 ← group_text doc (caps.name (utf8 "s2"))
    num ← group_text doc (caps.name (utf8 "num"))
    if is_empty s1 || is_empty s2 || is_empty num then some [] else do
      span ← origin doc caps.whole
      w ← around doc caps.whole
      passport_judged
          (has_any_prefix u w
            (utf8 "паспорт" ∷ utf8 "сери" ∷ utf8 "удостоверен" ∷ utf8 "документ" ∷ []))
          span (passport_series_validate year (s1 ++ s2)))

  unfoldable pub passport_detect : ℕ → CapturesIter → Document → Pushed
  unfolding passport_round
  passport_detect year re doc = collect (passport_round year doc) (re doc.norm)

  -- Six digits of a department: a region from 1 to 99 and a kind up to 3.
  unfoldable pub is_division : Text → Bool
  is_division (a ∷ b ∷ c ∷ _ ∷ _ ∷ _ ∷ []) = leb 1 (two a b) && leb (two a b) 99 && leb (c - b'0') 3
  is_division _ = false

  unfoldable pub division_round : Document → Found → Pushed
  unfolding is_division
  division_round doc m = guarded doc m (do
    text ← matched doc m
    if is_division (digits_of text)
        then (do
          span ← origin doc m
          w ← around doc m
          if has_any_prefix u w (utf8 "подразделен" ∷ utf8 "подр" ∷ [])
                && has_any_word u w (utf8 "код" ∷ [])
              then emit division_code span (F.of_millis 950) (regex (utf8 "division_code"))
                  in_context
              else emit division_code span (F.of_millis 300) (regex (utf8 "division_code"))
                  no_signals)
        else some [])

  unfoldable pub division_code_detect : FindIter → Document → Pushed
  unfolding division_round
  division_code_detect re doc = collect (division_round doc) (re doc.norm)
