-- ===== src/Domain/Document.antt =====
-- `Document` of src/domain/document.rs: the text, its folded form and the map of offsets back.
pub mod Boundaries
pub mod Offsets
use alfavibe_hack.Prelude.{
  ◌>>=◌, ℕ, zero, suc, ◌+◌, ◌-◌, ◌%◌, ◌^◌, min, Bool, true, false, not, ◌&&◌, ◌||◌, List, [], ◌∷◌,
  ◌++◌, Option, none, some, Text, text_Eq, utf8, leb, ltb, eqb, if◌then◌else◌, length, get_elem?,
  replicate, any, all, slice?, is_char_boundary, is_ascii_digit, chars, ◌==◌,
}
use alfavibe_hack.Domain.Span.{Span}

pub record Document : Type 0 where
  pub original : Text
  pub norm : Text
  pub norm_to_orig : List ℕ

abbrev is_ascii_lowercase : ℕ → Bool
is_ascii_lowercase b = leb b'a' b && leb b b'z'

abbrev is_ascii_punctuation : ℕ → Bool
is_ascii_punctuation b =
    leb 33 b && leb b 47 || leb 58 b && leb b 64 || leb 91 b && leb b 96 || leb 123 b && leb b 126

-- The text is lower-case ASCII and needs no folding.
unfoldable pub is_ascii_fast_path : Text → Bool
is_ascii_fast_path text =
    all (λ b. is_ascii_lowercase b || is_ascii_digit b || is_ascii_punctuation b || eqb b b' ') text

abbrev dashes : List Text
dashes = utf8 "‐" ∷ utf8 "‑" ∷ utf8 "‒" ∷ utf8 "–" ∷ utf8 "—" ∷ utf8 "―" ∷ utf8 "−" ∷ []

-- U+00A0, U+2009, tab, U+2000 to U+2008, U+200A, U+202F, U+205F, U+3000
abbrev spaces : List Text
spaces =
    (0xC2 ∷ 0xA0 ∷ [])
    ∷ (0xE2 ∷ 0x80 ∷ 0x89 ∷ [])
    ∷ (9 ∷ [])
    ∷ (0xE2 ∷ 0x80 ∷ 0x80 ∷ [])
    ∷ (0xE2 ∷ 0x80 ∷ 0x81 ∷ [])
    ∷ (0xE2 ∷ 0x80 ∷ 0x82 ∷ [])
    ∷ (0xE2 ∷ 0x80 ∷ 0x83 ∷ [])
    ∷ (0xE2 ∷ 0x80 ∷ 0x84 ∷ [])
    ∷ (0xE2 ∷ 0x80 ∷ 0x85 ∷ [])
    ∷ (0xE2 ∷ 0x80 ∷ 0x86 ∷ [])
    ∷ (0xE2 ∷ 0x80 ∷ 0x87 ∷ [])
    ∷ (0xE2 ∷ 0x80 ∷ 0x88 ∷ [])
    ∷ (0xE2 ∷ 0x80 ∷ 0x8A ∷ [])
    ∷ (0xE2 ∷ 0x80 ∷ 0xAF ∷ [])
    ∷ (0xE2 ∷ 0x81 ∷ 0x9F ∷ [])
    ∷ (0xE3 ∷ 0x80 ∷ 0x80 ∷ [])
    ∷ []

abbrev quotes : List Text
quotes = utf8 "«" ∷ utf8 "»" ∷ utf8 "„" ∷ utf8 "“" ∷ utf8 "”" ∷ []

unfoldable pub normalize_char : Text → Text
normalize_char c =
    if c == utf8 "ё"
    then utf8 "е"
    else if any (λ d. c == d) dashes
    then b'-' ∷ []
    else if any (λ d. c == d) spaces
    then b' ' ∷ []
    else if any (λ d. c == d) quotes
    then 34 ∷ []
    else c

-- `fold` gives the characters of the NFKC form of a character in lower case; it is the work of the
-- `unicode_normalization` crate and of the Unicode tables of the standard library.
module _ (fold : Text → List Text) where
  -- The bytes that one character of the original contributes.
  unfoldable pub folded : List Text → Text
  unfolding normalize_char
  folded [] = []
  folded (c ∷ cs) = normalize_char c ++ folded cs

  -- The loop over `char_indices`, from the offset `byte` on: text and map, with the end mark.
  unfoldable pub build : ℕ → List Text → Text × List ℕ
  build byte [] = ([], (byte % 2 ^ 32) ∷ [])
  build byte (ch ∷ chs) =
      let (norm, offsets) = build (byte + length ch) chs in
      let out = folded (fold ch) in (out ++ norm, replicate (length out) (byte % 2 ^ 32) ++ offsets)

  -- `Document::new`
  unfoldable pub new : Text → Document
  new original =
      if is_ascii_fast_path original
      then record { original = original; norm = original; norm_to_orig = [] }
      else let (norm, offsets) = build 0 (chars original) in
        record { original = original; norm = norm; norm_to_orig = offsets }

-- The loop of `align_forward`, with the bytes that are left for fuel.
unfoldable pub align_from : Text → ℕ → ℕ → ℕ
align_from original zero byte = byte
align_from original (suc fuel) byte =
    let next = align_from original fuel (suc byte) in
    if is_char_boundary original byte then byte else next

unfoldable pub align_forward : Document → ℕ → ℕ
unfolding align_from
align_forward doc byte = align_from doc.original (length doc.original - byte) byte

abbrev is_identity : List ℕ → Bool
is_identity [] = true
is_identity (_ ∷ _) = false

-- `to_original`; `none` is a panic of an index.
unfoldable pub to_original : Document → ℕ → ℕ → Option Span
to_original doc norm_start norm_end =
    if is_identity doc.norm_to_orig
    then some (record { start = norm_start; end = norm_end })
    else do
      start ← get_elem? doc.norm_to_orig (min norm_start (length doc.norm))
      end ← get_elem? doc.norm_to_orig (min norm_end (length doc.norm))
      some (record { start = align_forward doc start; end = align_forward doc end })

-- `original_slice`
unfoldable pub original_slice : Document → Span → Option Text
original_slice doc span = slice? span.start span.end doc.original
