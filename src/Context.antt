-- ===== src/Context.antt =====
-- src/service/detect/context.rs: what stands around a range of the folded text.
pub mod Window
pub mod Scorer
use alfavibe_hack.Prelude.{
  ◌>>=◌, ℕ, zero, suc, ◌+◌, ◌-◌, min, Bool, true, false, not, ◌&&◌, ◌||◌, List, [], ◌∷◌, Option,
  none, some, Text, text_Eq, leb, eqb, if◌then◌else◌, length, get_elem?, any, slice?,
  is_char_boundary, is_ascii_digit, ◌==◌,
}
use alfavibe_hack.Domain.Document.{align_from}
use alfavibe_hack.Domain.Unicode.{Unicode, contains, split, starts_with}

abbrev is_ascii_letter : ℕ → Bool
is_ascii_letter b = leb b'a' b && leb b b'z' || leb b'A' b && leb b b'Z'

-- The lead bytes of the letters that the source means, and of more.
unfoldable pub is_cyrillic : ℕ → Bool
is_cyrillic b = leb 0xC0 b && leb b 0xFF || eqb b 0xD0 || eqb b 0xD1

abbrev joins : Option ℕ → Bool
joins none = false
joins (some b) = is_ascii_letter b || is_ascii_digit b || is_cyrillic b

-- `is_boundary`; a missing byte stands for the ends of the text. `none` is the panic at a start that
-- lies behind the text.
unfoldable pub is_boundary : Text → ℕ → ℕ → Option Bool
is_boundary norm zero end = some (not (joins (get_elem? norm end)))
is_boundary norm (suc before) end = do
  prev ← get_elem? norm before
  some (not (joins (some prev)) && not (joins (get_elem? norm end)))

-- The first loop of `window`: back to the border of a character.
unfoldable pub align_back : Text → ℕ → ℕ
align_back norm zero = zero
align_back norm (suc s) =
    let further = align_back norm s in if is_char_boundary norm (suc s) then suc s else further

-- The offsets of `window`.
unfoldable pub window_start : Text → ℕ → ℕ
window_start norm start = align_back norm (min start (length norm))

unfoldable pub window_end : Text → ℕ → ℕ
window_end norm end = align_from norm (length norm - min end (length norm)) (min end (length norm))

unfoldable pub window : Text → ℕ → ℕ → Option Text
window norm start end = slice? (window_start norm start) (window_end norm end) norm

-- `has_context_word`, which does not align its range.
unfoldable pub has_context_word : Text → ℕ → ℕ → ℕ → ℕ → List Text → Option Bool
has_context_word norm span_start span_end left right words = do
  around ← slice? (span_start - left) (min (span_end + right) (length norm)) norm
  some (any (λ w. contains w around) words)

module _ (u : Unicode) where
  -- The pieces of a text between characters that are no letters and no digits.
  abbrev pub words_of : Text → List Text
  words_of text = split (λ c. not (u.is_alphanumeric c)) text

  unfoldable pub has_word : Text → Text → Bool
  has_word text word = any (λ w. w == word) (words_of text)

  unfoldable pub has_any_word : Text → List Text → Bool
  has_any_word text words = any (has_word text) words

  abbrev is_empty : Text → Bool
  is_empty [] = true
  is_empty (_ ∷ _) = false

  unfoldable pub has_any_prefix : Text → List Text → Bool
  has_any_prefix text prefixes =
      any (λ word. not (is_empty word) && any (λ p. starts_with p word) prefixes) (words_of text)
