-- ===== src/Detect/Inn.antt =====
-- src/service/detect/inn.rs: the detector of taxpayer numbers.
use alfavibe_hack.Prelude.{
  ◌>>=◌, Bool, true, false, ◌||◌, List, [], ◌∷◌, Option, some, Text, utf8, length, eqb,
  if◌then◌else◌,
}
use alfavibe_hack.Domain.Candidate.{Candidate, checksum, no_signals}
use alfavibe_hack.Domain.Document.{Document}
use alfavibe_hack.Domain.Float32.{Float32}
use alfavibe_hack.Domain.PdType.{PdType, inn, org_inn}
use alfavibe_hack.Domain.Span.{Span}
use alfavibe_hack.Domain.Unicode.{Unicode, contains}
use alfavibe_hack.Context.{has_any_word, has_word}
use alfavibe_hack.Validators.{ValidationResult, valid, invalid, not_applicable, inn_validate}
use alfavibe_hack.Detect.{FindIter, Found, collect, guarded, matched, around, origin, emit, checked}

-- The words of an organisation around the number.
unfoldable pub org_context : Unicode → Text → Bool
org_context u w =
    has_any_word u w (utf8 "ооо" ∷ utf8 "пао" ∷ utf8 "ао" ∷ utf8 "ип" ∷ [])
    || contains (utf8 "инн организации") w
    || contains (utf8 "инн банка") w

module _ (u : Unicode) (F : Float32) where
  abbrev Pushed : Type 0
  Pushed = Option (List (Candidate F.Carrier))

  -- The match on the verdict: a number that fails the test is kept only next to the word.
  unfoldable pub inn_judged : Bool → PdType → Span → ValidationResult → Pushed
  inn_judged named t span valid =
      emit t span (F.of_millis (if named then 980 else 850)) (checksum (utf8 "inn")) checked
  inn_judged true t span invalid = emit t span (F.of_millis 600) (checksum (utf8 "inn")) no_signals
  inn_judged false t span invalid = some []
  inn_judged named t span not_applicable = some []

  unfoldable pub inn_round : Document → Found → Pushed
  unfolding inn_judged
  inn_round doc m = guarded doc m (do
    digits ← matched doc m
    span ← origin doc m
    w ← around doc m
    verdict ← inn_validate digits
    inn_judged (has_word u w (utf8 "инн"))
        (if eqb (length digits) 10 || org_context u w then org_inn else inn) span verdict)

  unfoldable pub inn_detect : FindIter → Document → Pushed
  unfolding inn_round
  inn_detect re doc = collect (inn_round doc) (re doc.norm)
