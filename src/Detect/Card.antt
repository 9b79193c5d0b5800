-- ===== src/Detect/Card.antt =====
-- src/service/detect/card.rs: the detectors of card numbers, of codes on a card and of its holder.
pub mod Exact
use alfavibe_hack.Prelude.{
  ◌>>=◌, ℕ, ◌||◌, List, [], ◌∷◌, Option, none, some, Text, text_Eq, utf8, digits_of, length, ltb,
  any, slice?, ◌==◌, if◌then◌else◌,
}
use alfavibe_hack.Domain.Candidate.{Candidate, regex}
use alfavibe_hack.Domain.Document.{Document}
use alfavibe_hack.Domain.Float32.{Float32}
use alfavibe_hack.Domain.PdType.{PdType, card_number, cvv, pin, card_holder}
use alfavibe_hack.Domain.Span.{Span}
use alfavibe_hack.Validators.{ValidationResult, valid, invalid, not_applicable, luhn_validate}
use alfavibe_hack.Detect.{
  FindIter, CapturesIter, Found, Captures, collect, matched, origin, guarded, emit, checked,
  in_context, in_match,
}

-- The prefixes of a card number that name a known issuer.
abbrev pub known_prefixes : List Text
known_prefixes =
    utf8 "22"
    ∷ utf8 "23"
    ∷ utf8 "24"
    ∷ utf8 "25"
    ∷ utf8 "26"
    ∷ utf8 "27"
    ∷ utf8 "34"
    ∷ utf8 "35"
    ∷ utf8 "37"
    ∷ utf8 "40"
    ∷ utf8 "41"
    ∷ utf8 "42"
    ∷ utf8 "43"
    ∷ utf8 "44"
    ∷ utf8 "45"
    ∷ utf8 "46"
    ∷ utf8 "47"
    ∷ utf8 "48"
    ∷ utf8 "49"
    ∷ utf8 "51"
    ∷ utf8 "52"
    ∷ utf8 "53"
    ∷ utf8 "54"
    ∷ utf8 "55"
    ∷ utf8 "60"
    ∷ utf8 "62"
    ∷ []

module _ (F : Float32) where
  abbrev Pushed : Type 0
  Pushed = Option (List (Candidate F.Carrier))

  -- The match on the verdict of the checksum; only a valid number is pushed.
  unfoldable pub card_judged : Span → Text → ValidationResult → Pushed
  card_judged span digits valid = do
    prefix ← slice? 0 2 digits
    emit card_number span (F.of_millis (if any (λ p. prefix == p) known_prefixes then 950 else 700))
        (regex (utf8 "card_number")) checked
  card_judged span digits invalid = some []
  card_judged span digits not_applicable = some []

  unfoldable pub card_checked : Document → Found → Text → Pushed
  unfolding card_judged
  card_checked doc m digits =
      if ltb (length digits) 13 || ltb 19 (length digits)
      then some []
      else (origin doc m >>= λ span. card_judged span digits (luhn_validate digits))

  -- One round of the loop, and the detector.
  unfoldable pub card_round : Document → Found → Pushed
  unfolding card_checked
  card_round doc m = guarded doc m (matched doc m >>= λ text. card_checked doc m (digits_of text))

  unfoldable pub card_number_detect : FindIter → Document → Pushed
  unfolding card_round
  card_number_detect re doc = collect (card_round doc) (re doc.norm)

  -- The loop body of the three detectors whose expression has the value in a group.
  unfoldable pub labelled_round : ℕ → PdType → Text → Document → Captures → Pushed
  labelled_round n t id doc caps = do
    span ← origin doc (in_match caps.whole (caps.group n))
    emit t span (F.of_millis 900) (regex id) in_context

  unfoldable pub cvv_detect : CapturesIter → Document → Pushed
  unfolding labelled_round
  cvv_detect re doc = collect (labelled_round 2 cvv (utf8 "cvv") doc) (re doc.norm)

  unfoldable pub pin_detect : CapturesIter → Document → Pushed
  unfolding labelled_round
  pin_detect re doc = collect (labelled_round 4 pin (utf8 "pin") doc) (re doc.norm)

  unfoldable pub card_holder_detect : CapturesIter → Document → Pushed
  unfolding labelled_round
  card_holder_detect re doc =
      collect (labelled_round 2 card_holder (utf8 "card_holder") doc) (re doc.norm)
