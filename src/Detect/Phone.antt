-- ===== src/Detect/Phone.antt =====
-- src/service/detect/phone.rs: the detector of telephone numbers.
use alfavibe_hack.Prelude.{
  ◌>>=◌, ℕ, Bool, true, false, ◌&&◌, ◌||◌, List, [], ◌∷◌, ◌++◌, Option, some, Text, utf8, digits_of,
  length, get_elem?, eqb, leb, if◌then◌else◌,
}
use alfavibe_hack.Domain.Candidate.{Candidate, regex, no_signals}
use alfavibe_hack.Domain.Document.{Document}
use alfavibe_hack.Domain.Float32.{Float32}
use alfavibe_hack.Domain.PdType.{phone}
use alfavibe_hack.Domain.Unicode.{Unicode}
use alfavibe_hack.Context.{has_any_word}
use alfavibe_hack.Detect.{
  FindIter, Found, collect, guarded, matched, around, origin, emit, in_context,
}

-- `matches!(c, '3' | '4' | '8' | '9')`
abbrev is_code : ℕ → Bool
is_code c = eqb c b'3' || eqb c b'4' || eqb c b'8' || eqb c b'9'

abbrev context_words : List Text
context_words =
    utf8 "тел"
    ∷ utf8 "телефон"
    ∷ utf8 "моб"
    ∷ utf8 "звоните"
    ∷ utf8 "whatsapp"
    ∷ utf8 "telegram"
    ∷ utf8 "phone"
    ∷ []

module _ (F : Float32) where
  -- `validate_rf`; `none` is the panic of an `unwrap`.
  unfoldable pub validate_rf : Text → Option (Bool × F.Carrier)
  validate_rf digits =
      if eqb (length digits) 10
      then (get_elem? digits 0 >>= λ first. some (
          if is_code first
          then (true, F.of_millis (if eqb first b'9' then 600 else 800))
          else (false, F.of_millis 0)))
      else if eqb (length digits) 11
      then (get_elem? digits 0 >>= λ first. get_elem? digits 1 >>= λ second. some (
          if (eqb first b'7' || eqb first b'8') && is_code second
          then (true, F.of_millis 900)
          else (false, F.of_millis 0)))
      else some (false, F.of_millis 0)

module _ (u : Unicode) (F : Float32) where
  abbrev Pushed : Type 0
  Pushed = Option (List (Candidate F.Carrier))

  unfoldable pub phone_rf : Document → Found → Bool × F.Carrier → Pushed
  phone_rf doc m (false, score) = some []
  phone_rf doc m (true, score) = do
    span ← origin doc m
    w ← around doc m
    if has_any_word u w context_words
        then emit phone span (F.min_of (F.add score (F.of_millis 350)) (F.of_millis 1000))
            (regex (utf8 "phone")) in_context
        else emit phone span score (regex (utf8 "phone")) no_signals

  unfoldable pub phone_rf_round : Document → Found → Pushed
  unfolding phone_rf
  phone_rf_round doc m =
      guarded doc m
        (do text ← matched doc m; checked ← validate_rf F (digits_of text); phone_rf doc m checked)

  unfoldable pub phone_intl_round : Document → Found → Pushed
  phone_intl_round doc m = guarded doc m (do
    text ← matched doc m
    if leb 8 (length (digits_of text)) && leb (length (digits_of text)) 15
        then (origin doc m >>= λ span.
            emit phone span (F.of_millis 900) (regex (utf8 "phone")) no_signals)
        else some [])

  unfoldable pub phone_detect : FindIter → FindIter → Document → Pushed
  unfolding phone_rf_round phone_intl_round
  phone_detect re_rf re_intl doc = do
    local ← collect (phone_rf_round doc) (re_rf doc.norm)
    abroad ← collect (phone_intl_round doc) (re_intl doc.norm)
    some (local ++ abroad)
