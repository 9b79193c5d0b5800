-- ===== src/Pipeline/Windows.antt =====
-- `select_ner_windows` of src/service/pipeline.rs: the sentences that a model of names is asked about.
use alfavibe_hack.Prelude.{
  ◌>>=◌, ℕ, ◌+◌, ◌*◌, Bool, false, ◌||◌, List, [], ◌∷◌, Option, some, Text, text_Eq, utf8, chars,
  any, ltb, if◌then◌else◌, length, take, slice?, max, ◌==◌,
}
use alfavibe_hack.Domain.Span.{Span}
use alfavibe_hack.Domain.Document.{Document, original_slice, to_original}
use alfavibe_hack.Domain.Policy.{EffectivePolicy}
use alfavibe_hack.Domain.Unicode.{Unicode, contains, split_whitespace}

abbrev ends_sentence : Text → Bool
ends_sentence c = c == utf8 "." || c == utf8 "!" || c == utf8 "?" || c == (10 ∷ [])

abbrev pub add_sentence : ℕ → ℕ → List Span → List Span
add_sentence start end ss = if ltb start end then record { start = start; end = end } ∷ ss else ss

-- The loop over `char_indices` at the offset `i`, with the start of the sentence; the rest after the
-- last mark is a sentence as well.
unfoldable pub sentences_from : ℕ → ℕ → List Text → List Span
sentences_from start i [] = add_sentence start i []
sentences_from start i (c ∷ cs) =
    let end = i + length c in
    let after = sentences_from end end cs in
    let within = sentences_from start end cs in
    if ends_sentence c then add_sentence start end after else within

abbrev ner_triggers : List Text
ner_triggers =
    utf8 "клиент"
    ∷ utf8 "зовут"
    ∷ utf8 "проживает"
    ∷ utf8 "уроженец"
    ∷ utf8 "гражданин"
    ∷ utf8 "заявитель"
    ∷ utf8 "родился"
    ∷ utf8 "родилась"
    ∷ []

abbrev capitalized : Unicode → Text → Bool
capitalized u word = elim (chars word) [ [] ↦ false | c ∷ _ ↦ u.is_uppercase c ]

-- Any word but the first.
abbrev later_capitalized : Unicode → List Text → Bool
later_capitalized u [] = false
later_capitalized u (_ ∷ words) = any (capitalized u) words

unfoldable pub has_ner_signal : Unicode → Document → Text → ℕ → Option Bool
has_ner_signal u doc sentence norm_start = do
  span ← to_original doc norm_start (norm_start + length sentence)
  orig ← original_slice doc span
  some
      (later_capitalized u (split_whitespace u orig) || any (λ w. contains w sentence) ner_triggers)

-- The sentences with a signal.
unfoldable pub signalled : Unicode → Document → List Span → Option (List Span)
signalled u doc [] = some []
signalled u doc (s ∷ ss) = do
  sentence ← slice? s.start s.end doc.norm
  signal ← has_ner_signal u doc sentence s.start
  rest ← signalled u doc ss
  some (if signal then s ∷ rest else rest)

unfoldable pub max_windows : {S : Type 0} → EffectivePolicy S → ℕ
max_windows policy =
    if ltb 0 policy.max_windows_per_request
    then policy.max_windows_per_request
    else max (length policy.ner_types) 1 * 64

unfoldable pub select_ner_windows :
    {S : Type 0} → Unicode → Document → EffectivePolicy S → Option (List Span)
select_ner_windows u doc policy = do
  windows ← signalled u doc (sentences_from 0 0 (chars doc.norm))
  some (take (max_windows policy) windows)
