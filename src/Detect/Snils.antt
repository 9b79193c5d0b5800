-- ===== src/Detect/Snils.antt =====
-- src/service/detect/snils.rs: the detector of insurance numbers.
use alfavibe_hack.Prelude.{
  ◌>>=◌, Bool, true, false, List, [], Option, some, Text, utf8, digits_of, length, eqb,
  if◌then◌else◌,
}
use alfavibe_hack.Domain.Candidate.{Candidate, checksum, no_signals}
use alfavibe_hack.Domain.Document.{Document}
use alfavibe_hack.Domain.Float32.{Float32}
use alfavibe_hack.Domain.PdType.{snils}
use alfavibe_hack.Domain.Span.{Span}
use alfavibe_hack.Domain.Unicode.{Unicode}
use alfavibe_hack.Context.{has_word}
use alfavibe_hack.Validators.{ValidationResult, valid, snils_validate}
use alfavibe_hack.Detect.{FindIter, Found, collect, guarded, matched, around, origin, emit, checked}

module _ (u : Unicode) (F : Float32) where
  abbrev Pushed : Type 0
  Pushed = Option (List (Candidate F.Carrier))

  unfoldable pub snils_judged : Bool → Span → ValidationResult → Pushed
  snils_judged named span valid =
      emit snils span (F.of_millis (if named then 950 else 850)) (checksum (utf8 "snils")) checked
  snils_judged true span _ = emit snils span (F.of_millis 600) (checksum (utf8 "snils")) no_signals
  snils_judged false span _ = some []

  unfoldable pub snils_digits : Document → Found → Text → Pushed
  unfolding snils_judged
  snils_digits doc m digits =
      if eqb (length digits) 11
      then (do
        span ← origin doc m
        w ← around doc m
        verdict ← snils_validate digits
        snils_judged (has_word u w (utf8 "снилс")) span verdict)
      else some []

  unfoldable pub snils_round : Document → Found → Pushed
  unfolding snils_digits
  snils_round doc m = guarded doc m (matched doc m >>= λ text. snils_digits doc m (digits_of text))

  unfoldable pub snils_detect : FindIter → Document → Pushed
  unfolding snils_round
  snils_detect re doc = collect (snils_round doc) (re doc.norm)
