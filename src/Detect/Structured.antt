-- ===== src/Detect/Structured.antt =====
-- src/service/detect/structured.rs: the name of a field tells the type of its value.
use alfavibe_hack.Prelude.{
  ◌>>=◌, Bool, true, false, ◌||◌, List, [], ◌∷◌, Option, none, some, Text, text_Eq, utf8, length,
  ltb, if◌then◌else◌,
}
use alfavibe_hack.Prelude.Maps.{get}
use alfavibe_hack.Domain.Candidate.{Candidate, regex}
use alfavibe_hack.Domain.Document.{Document}
use alfavibe_hack.Domain.Float32.{Float32}
use alfavibe_hack.Domain.PdType.{
  PdType, address, birth_date, birth_place, card_holder, card_number, citizenship, cvv,
  division_code, driver_license, email, fio, inn, passport, passport_issuer, phone, pin, snils,
}
use alfavibe_hack.Domain.Unicode.{Unicode, trim}
use alfavibe_hack.Detect.{CapturesIter, Captures, collect, group_text, origin, emit, in_context}

-- `FIELD_TYPES`
unfoldable pub field_types : List (Text × PdType)
field_types =
    (utf8 "passport", passport)
    ∷ (utf8 "паспорт", passport)
    ∷ (utf8 "passport_series", passport)
    ∷ (utf8 "birth_date", birth_date)
    ∷ (utf8 "дата_рождения", birth_date)
    ∷ (utf8 "дата рождения", birth_date)
    ∷ (utf8 "birth_place", birth_place)
    ∷ (utf8 "место_рождения", birth_place)
    ∷ (utf8 "место рождения", birth_place)
    ∷ (utf8 "phone", phone)
    ∷ (utf8 "телефон", phone)
    ∷ (utf8 "phone_number", phone)
    ∷ (utf8 "email", email)
    ∷ (utf8 "inn", inn)
    ∷ (utf8 "инн", inn)
    ∷ (utf8 "snils", snils)
    ∷ (utf8 "снилс", snils)
    ∷ (utf8 "card_number", card_number)
    ∷ (utf8 "card", card_number)
    ∷ (utf8 "номер_карты", card_number)
    ∷ (utf8 "cvv", cvv)
    ∷ (utf8 "pin", pin)
    ∷ (utf8 "card_holder", card_holder)
    ∷ (utf8 "держатель", card_holder)
    ∷ (utf8 "citizenship", citizenship)
    ∷ (utf8 "гражданство", citizenship)
    ∷ (utf8 "address", address)
    ∷ (utf8 "адрес", address)
    ∷ (utf8 "driver_license", driver_license)
    ∷ (utf8 "division_code", division_code)
    ∷ (utf8 "passport_issuer", passport_issuer)
    ∷ (utf8 "выдан", passport_issuer)
    ∷ (utf8 "fio", fio)
    ∷ (utf8 "фио", fio)
    ∷ (utf8 "full_name", fio)
    ∷ (utf8 "name", fio)
    ∷ []

abbrev is_empty : Text → Bool
is_empty [] = true
is_empty (_ ∷ _) = false

module _ (u : Unicode) (F : Float32) where
  abbrev Pushed : Type 0
  Pushed = Option (List (Candidate F.Carrier))

  -- A field of a known name whose value has at most 200 bytes is pushed.
  unfoldable pub field_push : Document → Captures → Option PdType → Text → Pushed
  field_push doc caps none value = some []
  field_push doc caps (some t) value = if ltb 200 (length value) then some [] else do
    place ← caps.group 2
    span ← origin doc place
    emit t span (F.of_millis 850) (regex (utf8 "structured_field")) in_context

  unfoldable pub field_round : Document → Captures → Pushed
  unfolding field_push field_types
  field_round doc caps = do
    key ← group_text doc (caps.group 1)
    value ← group_text doc (caps.group 2)
    if is_empty (trim u key) || is_empty (trim u value)
        then some []
        else field_push doc caps (get (trim u key) field_types) (trim u value)

  unfoldable pub structured_detect : CapturesIter → Document → Pushed
  unfolding field_round
  structured_detect re doc = collect (field_round doc) (re doc.norm)
