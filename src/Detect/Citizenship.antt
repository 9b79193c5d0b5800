-- ===== src/Detect/Citizenship.antt =====
-- src/service/detect/citizenship.rs: the detector of a citizenship.
use alfavibe_hack.Prelude.{
  ◌>>=◌, Bool, true, false, ◌&&◌, ◌||◌, List, [], ◌∷◌, ◌++◌, Option, none, some, Text, text_Eq,
  utf8, any, if◌then◌else◌, ◌==◌,
}
use alfavibe_hack.Domain.Candidate.{Candidate, regex}
use alfavibe_hack.Domain.Document.{Document}
use alfavibe_hack.Domain.Float32.{Float32}
use alfavibe_hack.Domain.PdType.{citizenship}
use alfavibe_hack.Domain.Unicode.{Unicode, contains, trim}
use alfavibe_hack.Detect.{CapturesIter, Found, collect, matched, origin, emit, in_context}

abbrev is_value : Text → Bool
is_value [] = false
is_value (_ ∷ _) = true

-- `is_country` of the first loop, and of the second.
unfoldable pub names_country : List Text → Text → Bool
names_country countries value =
    any (λ c. contains c value) countries
    || any (λ c. value == c)
        (utf8 "рф" ∷ utf8 "россия" ∷ utf8 "российской федерации" ∷ utf8 "российская федерация" ∷ [])

unfoldable pub mentions_country : List Text → Text → Bool
mentions_country countries value =
    any (λ c. contains c value) countries || contains (utf8 "российской") value

module _ (u : Unicode) (F : Float32) (countries : List Text) where
  abbrev Pushed : Type 0
  Pushed = Option (List (Candidate F.Carrier))

  abbrev push : Document → Found → Pushed
  push doc m = do
    span ← origin doc m
    emit citizenship span (F.of_millis 900) (regex (utf8 "citizenship")) in_context

  -- "гражданство: …": the value alone is the candidate.
  unfoldable pub value_round : Document → Option Found → Pushed
  unfolding names_country
  value_round doc none = some []
  value_round doc (some c) = do
    text ← matched doc c
    if is_value (trim u text) && names_country countries (trim u text) then push doc c else some []

  -- "гражданин …": the whole match is.
  unfoldable pub phrase_round : Document → Found → Option Found → Pushed
  unfolding mentions_country
  phrase_round doc m none = some []
  phrase_round doc m (some c) = do
    text ← matched doc c
    if is_value (trim u text) && mentions_country countries (trim u text)
        then push doc m
        else some []

  unfoldable pub citizenship_detect : CapturesIter → CapturesIter → Document → Pushed
  unfolding value_round phrase_round
  citizenship_detect re_value re_phrase doc = do
    values ← collect (λ caps. value_round doc (caps.group 1)) (re_value doc.norm)
    phrases ← collect (λ caps. phrase_round doc caps.whole (caps.group 2)) (re_phrase doc.norm)
    some (values ++ phrases)
