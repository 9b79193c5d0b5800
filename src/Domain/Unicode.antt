-- ===== src/Domain/Unicode.antt =====
-- The Unicode tables of the standard library and of the `unicode_normalization` crate, as a
-- parameter. A character is given by its bytes.
use alfavibe_hack.Prelude.{
  Bool, true, false, List, [], ◌∷◌, ◌++◌, Text, chars, if◌then◌else◌, ◌||◌, eqb, leb, ◌&&◌, ◌+◌, ℕ,
  map, is_ascii_digit, reverse,
}

pub record Unicode : Type 0 where
  pub fold : Text → List Text  -- the characters of its NFKC form in lower case
  pub is_uppercase : Text → Bool
  pub is_whitespace : Text → Bool
  pub is_alphanumeric : Text → Bool
  pub is_alphabetic : Text → Bool
  pub to_lowercase : Text → Text  -- of a whole text

-- The pieces of `split(p)`, with the piece read so far.
split_from : (Text → Bool) → Text → List Text → List Text
split_from p piece [] = piece ∷ []
split_from p piece (c ∷ cs) =
    let longer = split_from p (piece ++ c) cs in
    let closed = piece ∷ split_from p [] cs in if p c then closed else longer

unfoldable pub split : (Text → Bool) → Text → List Text
unfolding split_from
split p text = split_from p [] (chars text)

abbrev pub nonempty : List Text → List Text
nonempty [] = []
nonempty ([] ∷ ts) = nonempty ts
nonempty (t ∷ ts) = t ∷ nonempty ts

-- `split_whitespace`
unfoldable pub split_whitespace : Unicode → Text → List Text
unfolding split
split_whitespace u text = nonempty (split u.is_whitespace text)

-- `str::contains` of a text
unfoldable pub starts_with : Text → Text → Bool
starts_with [] text = true
starts_with (p ∷ ps) [] = false
starts_with (p ∷ ps) (c ∷ cs) = eqb p c && starts_with ps cs

unfoldable pub contains : Text → Text → Bool
unfolding starts_with
contains word [] = starts_with word []
contains word (c ∷ cs) = starts_with word (c ∷ cs) || contains word cs

-- `join(" ")`
unfoldable pub join_spaces : List Text → Text
join_spaces [] = []
join_spaces (t ∷ []) = t
join_spaces (t ∷ u ∷ ts) = t ++ (b' ' ∷ join_spaces (u ∷ ts))

-- `str::trim`: the characters between the white space at both ends.
unfoldable pub skip_white : Unicode → List Text → List Text
skip_white u [] = []
skip_white u (c ∷ cs) = if u.is_whitespace c then skip_white u cs else c ∷ cs

-- `take_while(|c| c.is_whitespace())`
abbrev pub leading_white : Unicode → List Text → List Text
leading_white u [] = []
leading_white u (c ∷ cs) = if u.is_whitespace c then c ∷ leading_white u cs else []

abbrev pub joined : List Text → Text
joined [] = []
joined (c ∷ cs) = c ++ joined cs

unfoldable pub trim : Unicode → Text → Text
unfolding skip_white
trim u text = joined (reverse (skip_white u (reverse (skip_white u (chars text)))))

-- Lower case, white space and letters of ASCII, for running the model.
abbrev pub ascii : Unicode
ascii = record {
  fold = λ c. map lower_byte c ∷ [];
  is_uppercase = λ c. first_is upper_byte c;
  is_whitespace = λ c. first_is (λ b. eqb b b' ' || leb 9 b && leb b 13) c;
  is_alphanumeric =
      λ c. first_is (λ b. is_ascii_digit b || upper_byte b || leb b'a' b && leb b b'z') c;
  is_alphabetic = λ c. first_is (λ b. upper_byte b || leb b'a' b && leb b b'z') c;
  to_lowercase = λ t. map lower_byte t;
}
  where
    upper_byte : ℕ → Bool
    upper_byte b = leb b'A' b && leb b b'Z'

    lower_byte : ℕ → ℕ
    lower_byte b = if upper_byte b then b + 32 else b

    first_is : (ℕ → Bool) → Text → Bool
    first_is p [] = false
    first_is p (b ∷ _) = p b
