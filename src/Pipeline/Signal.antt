-- ===== src/Pipeline/Signal.antt =====
-- `has_pd_signal` of src/service/pipeline.rs: whether a text is worth a closer look.
use alfavibe_hack.Prelude.{
  Bool, true, false, ◌&&◌, ◌||◌, ◌≡◌, refl, List, [], ◌∷◌, Text, text_Eq, utf8, chars, any,
  is_ascii_digit, if◌then◌else◌, ◌==◌, arith,
}
use alfavibe_hack.Domain.Unicode.{Unicode, contains}

-- `has_digit`, `has_at`, `has_upper`
pub record Signs : Type 0 where
  pub digit : Bool
  pub at : Bool
  pub upper : Bool

abbrev pub is_digit : Text → Bool
is_digit (b ∷ []) = is_ascii_digit b
is_digit _ = false

abbrev pub is_at : Text → Bool
is_at c = c == utf8 "@"

-- What one character adds.
unfoldable pub note_char : Unicode → Signs → Text → Signs
note_char u s c =
    if is_digit c
    then record { digit = true; at = s.at; upper = s.upper }
    else if is_at c
    then record { digit = s.digit; at = true; upper = s.upper }
    else if u.is_uppercase c
    then record { digit = s.digit; at = s.at; upper = true }
    else s

abbrev pub triggers : List Text
triggers =
    utf8 "паспорт"
    ∷ utf8 "серия"
    ∷ utf8 "телефон"
    ∷ utf8 "клиент"
    ∷ utf8 "гражданин"
    ∷ utf8 "инн"
    ∷ utf8 "снилс"
    ∷ utf8 "карта"
    ∷ utf8 "пин"
    ∷ utf8 "cvv"
    ∷ utf8 "email"
    ∷ utf8 "адрес"
    ∷ utf8 "проживает"
    ∷ utf8 "родился"
    ∷ utf8 "родилась"
    ∷ utf8 "выдан"
    ∷ utf8 "водительск"
    ∷ utf8 "держатель"
    ∷ utf8 "фио"
    ∷ utf8 "дата рождения"
    ∷ []

-- The end of the function: the trigger words, then the signs.
unfoldable pub conclude : Unicode → Text → Signs → Bool
conclude u text s =
    if s.upper && any (λ w. contains w (u.to_lowercase text)) triggers
    then true
    else s.digit || s.at || s.upper

-- The loop, which returns as soon as all three signs are seen.
unfoldable pub scan : Unicode → Text → Signs → List Text → Bool
scan u text s [] = conclude u text s
scan u text s (c ∷ cs) =
    let t = note_char u s c in
    let later = scan u text t cs in if t.digit && t.at && t.upper then true else later

unfoldable pub has_pd_signal : Unicode → Text → Bool
has_pd_signal u text =
    scan u text (record { digit = false; at = false; upper = false }) (chars text)

abbrev pub signs_of : Unicode → Text → Bool
signs_of u c = is_digit c || is_at c || u.is_uppercase c

conclude_lem :
    (u : Unicode) (text : Text) (s : Signs) → conclude u text s ≡ (s.digit || s.at || s.upper)
unfolding conclude
conclude_lem u text s = ground arith

note_char_lem :
    (u : Unicode) (s : Signs) (c : Text)
    → ((note_char u s c).digit || (note_char u s c).at || (note_char u s c).upper)
      ≡ ((s.digit || s.at || s.upper) || signs_of u c)
unfolding note_char
note_char_lem u s c = ground arith

scan-any :
    (u : Unicode) (text : Text) (s : Signs) (cs : List Text)
    → scan u text s cs ≡ ((s.digit || s.at || s.upper) || any (signs_of u) cs)
unfolding scan
scan-any u text s [] = ground (arith, conclude_lem u text s)
scan-any u text s (c ∷ cs) =
    ground (arith, scan-any u text (note_char u s c) cs, note_char_lem u s c)

-- The gate lets a text through to the detectors exactly when one of its characters is a digit, the
-- sign @ or in upper case; the trigger words decide nothing.
pub has_pd_signal-any :
    (u : Unicode) (text : Text) → has_pd_signal u text ≡ any (signs_of u) (chars text)
unfolding has_pd_signal
has_pd_signal-any u text =
    rw (scan-any u text (record { digit = false; at = false; upper = false }) (chars text)) refl
