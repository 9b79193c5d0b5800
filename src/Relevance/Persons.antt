-- ===== src/Relevance/Persons.antt =====
-- `PublicPersonFilter` of src/service/relevance.rs: names of persons that everybody knows.
use alfavibe_hack.Prelude.{
  ◌>>=◌, ◌+◌, ◌-◌, Bool, true, not, ◌&&◌, ◌||◌, List, [], ◌∷◌, Option, some, Text, text_Eq, utf8,
  any, eqb, if◌then◌else◌, ◌==◌,
}
use alfavibe_hack.Domain.PdType.{fio}
use alfavibe_hack.Domain.Span.{Span}
use alfavibe_hack.Domain.Document.{Document, original_slice}
use alfavibe_hack.Domain.Candidate
use alfavibe_hack.Domain.Candidate.{Candidate}
use alfavibe_hack.Domain.Float32.{Float32}
use alfavibe_hack.Domain.Unicode.{Unicode, contains}
use alfavibe_hack.Context.{window}
use alfavibe_hack.Relevance.{mentions}

-- Words of a client, which make a known name personal, and words of a public figure or of a place
-- named after one.
abbrev markers : List Text
markers =
    utf8 "клиент"
    ∷ utf8 "паспорт"
    ∷ utf8 "телефон"
    ∷ utf8 "проживает"
    ∷ utf8 "счет"
    ∷ utf8 "карта"
    ∷ []

abbrev public_words : List Text
public_words =
    utf8 "поэт"
    ∷ utf8 "писатель"
    ∷ utf8 "композитор"
    ∷ utf8 "президент"
    ∷ utf8 "министр"
    ∷ utf8 "художник"
    ∷ utf8 "ученый"
    ∷ utf8 "улица"
    ∷ utf8 "проспект"
    ∷ utf8 "памятник"
    ∷ utf8 "музей"
    ∷ utf8 "имени"
    ∷ utf8 "им."
    ∷ []

abbrev differs : Span → Span → Bool
differs s t = not (eqb s.start t.start && eqb s.end t.end)

module _ (u : Unicode) (F : Float32) (persons : List (List Text)) where
  unfoldable pub is_person : Text → Bool
  is_person orig = any (λ forms. any (λ f. contains (u.to_lowercase f) orig) forms) persons

  -- Another candidate of a high score that is no name.
  unfoldable pub other_pd : Candidate F.Carrier → List (Candidate F.Carrier) → Bool
  other_pd cand all_ =
      any
        (λ c.
          differs (Candidate.span c) (Candidate.span cand)
          && F.ge (Candidate.score c) (F.of_millis 800)
          && not (Candidate.pd_type c == fio))
        all_

  -- The rest of `keep` for a candidate that names a known person.
  unfoldable pub keep_known :
      Document → Candidate F.Carrier → List (Candidate F.Carrier) → Option Bool
  unfolding other_pd
  keep_known doc cand all_ = do
    around ← window doc.norm ((Candidate.span cand).start - 80) ((Candidate.span cand).end + 80)
    some (
        if mentions markers around || other_pd cand all_
        then true
        else not (mentions public_words around))

  unfoldable pub keep_person :
      Document → Candidate F.Carrier → List (Candidate F.Carrier) → Option Bool
  unfolding is_person keep_known
  keep_person doc cand all_ =
      if not (Candidate.pd_type cand == fio)
      then some true
      else (original_slice doc (Candidate.span cand) >>= λ orig.
          if is_person (u.to_lowercase orig) then keep_known doc cand all_ else some true)
