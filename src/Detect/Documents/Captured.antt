-- ===== src/Detect/Documents/Captured.antt =====
-- `capture_value` of src/service/detect/documents.rs returns a range of the text it reads.
use alfavibe_hack.Prelude.{
  All, ℕ, ◌+◌, ◌≡◌, Bool, true, false, not, ◌&&◌, ◌||◌, List, [], ◌∷◌, ◌++◌, reverse, Text, text_Eq,
  utf8, chars, length, leb, total_length, ◌==◌,
}
use alfavibe_hack.Domain.Unicode.{Unicode, joined, leading_white, skip_white}
use alfavibe_hack.Detect.Documents.{cut, is_abbreviation_dot}

-- `xs` begins with `front`.
abbrev Begins : List Text → List Text → Type 0
Begins front xs = (post : List Text) × (xs ≡ front ++ post)

module _ (u : Unicode) (max_bytes : ℕ) (stop_at_dot : Bool) where
  -- What is passed over, and the value, of the text that is left.
  abbrev passed : Text → List Text
  passed rest = leading_white u (chars rest)

  abbrev kept : Text → List Text
  kept rest = cut u max_bytes stop_at_dot 0 [] (skip_white u (chars rest))

-- The first character, if there is one, is no white space.
abbrev pub BeginsDark : Unicode → List Text → Type 0
BeginsDark u [] = Unit
BeginsDark u (c ∷ cs) = u.is_whitespace c ≡ false

abbrev pub IsWhite : Unicode → List Text → Type 0
IsWhite u cs = All (λ c. u.is_whitespace c ≡ true) cs

module _ (u : Unicode) (max_bytes : ℕ) (stop_at_dot : Bool) where
  -- A value ends before this character: the limit is reached, it is a semicolon, an end of line or a
  -- comma, or a full stop that ends no abbreviation.
  abbrev pub stops : ℕ → List Text → Text → Bool
  stops i before c =
      leb max_bytes i
      || (c == utf8 ";" || c == 10 ∷ [] || c == utf8 ",")
      || stop_at_dot && c == utf8 "." && not (is_abbreviation_dot u before)

  -- No character of the first list stops the value, and the second list is empty or begins with one
  -- that does. `i` bytes stand before, which are the characters `before`, the last one first.
  pub data Until : ℕ → List Text → List Text → List Text → Type 0 where
    at_end : {i : ℕ} {before : List Text} → Until i before [] []
    at_stop :
        {i : ℕ} {before : List Text} {c : Text} {tail : List Text}
        → stops i before c ≡ true
        → Until i before [] (c ∷ tail)
    on :
        {i : ℕ} {before : List Text} {c : Text} {cs tail : List Text}
        → stops i before c ≡ false
        → Until (i + length c) (c ∷ before) cs tail
        → Until i before (c ∷ cs) tail

  -- The characters of a text by what the capture does with them.
  pub record Captured (rest : Text) (lead : ℕ) (value : Text) : Type 0 where
    pub white : List Text  -- passed over
    pub kept : List Text  -- the value
    pub blanks : List Text  -- trimmed off behind it
    pub tail : List Text  -- not read any more
    pub split : chars rest ≡ white ++ ((kept ++ blanks) ++ tail)
    pub lead_is : lead ≡ total_length white
    pub value_is : value ≡ joined kept
    pub passed_over : IsWhite u white
    pub begins : BeginsDark u ((kept ++ blanks) ++ tail)
    pub trimmed : IsWhite u blanks
    pub ends : BeginsDark u (reverse kept)
    pub until : Until 0 [] (kept ++ blanks) tail
