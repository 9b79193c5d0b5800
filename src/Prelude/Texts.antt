-- ===== src/Prelude/Texts.antt =====
-- A text is the list of its UTF-8 bytes, so that offsets and lengths are those of the source.
use Prim.Native.Nat.{ℕ, zero, suc, ◌+◌, ◌-◌, ◌/◌, ◌%◌, ◌<◌, ◌≤◌}
use Prim.Native.Char.{code}
use Prim.Native.String.{String}
use mathlib.Core.Path.{◌≡◌, refl}
use mathlib.Core.Logic.{◌↔◌}
use mathlib.Core.Bool.{Bool, true, false, ◌&&◌, not}
use mathlib.Core.Option.{Option, none, some}
use mathlib.Core.List.{List, [], ◌∷◌, ◌++◌}
use native.Mathlib.Omega.{arith}
use alfavibe_hack.Prelude.Tests.{leb, ltb, eqb, if◌then◌else◌, Eq}
use alfavibe_hack.Prelude.Lists.{length, take, drop, filter}

abbrev pub Text : Type 0
Text = List ℕ

-- The UTF-8 encoding of one scalar value.
abbrev pub encode : ℕ → Text
encode c =
    if ltb c 0x80
    then c ∷ []
    else if ltb c 0x800
    then (0xC0 + c / 64) ∷ (0x80 + c % 64) ∷ []
    else if ltb c 0x10000
    then (0xE0 + c / 4096) ∷ (0x80 + c / 64 % 64) ∷ (0x80 + c % 64) ∷ []
    else (0xF0 + c / 262144) ∷ (0x80 + c / 4096 % 64) ∷ (0x80 + c / 64 % 64) ∷ (0x80 + c % 64) ∷ []

-- A literal of the source.
abbrev pub utf8 : String → Text
utf8 String.[] = []
utf8 (String.◌∷◌ c s) = encode (code c) ++ utf8 s

unfoldable pub text_eq : Text → Text → Bool
text_eq [] [] = true
text_eq (x ∷ xs) (y ∷ ys) = eqb x y && text_eq xs ys
text_eq _ _ = false

pub text_eq_iff : (s t : Text) → (text_eq s t ≡ true) ↔ (s ≡ t)
unfolding text_eq
text_eq_iff [] [] = (λ _. refl, λ _. refl)
text_eq_iff [] (y ∷ ys) = ground arith
text_eq_iff (x ∷ xs) [] = ground arith
text_eq_iff (x ∷ xs) (y ∷ ys) = ground (arith, text_eq_iff xs ys)

instance abbrev pub text_Eq : Eq Text
text_Eq = record { equal = text_eq; equal_iff = text_eq_iff }

-- The bytes from `start` to before `end`.
abbrev pub slice : ℕ → ℕ → Text → Text
slice start end text = take (end - start) (drop start text)

abbrev pub is_ascii_digit : ℕ → Bool
is_ascii_digit b = leb b'0' b && leb b b'9'

-- A byte that does not begin a character.
abbrev pub is_continuation : ℕ → Bool
is_continuation b = leb 0x80 b && ltb b 0xC0

-- The text is at its end or at the first byte of a character.
abbrev pub begins_char : Text → Bool
begins_char [] = true
begins_char (c ∷ cs) = not (is_continuation c)

-- `is_char_boundary`: 0, the length, or a byte that begins a character.
unfoldable pub is_char_boundary : Text → ℕ → Bool
is_char_boundary text zero = true
is_char_boundary [] (suc i) = false
is_char_boundary (b ∷ bs) (suc zero) = begins_char bs
is_char_boundary (b ∷ bs) (suc (suc i)) = is_char_boundary bs (suc i)

-- `b` begins a character of its own or the one that the rest goes on with.
abbrev pub extend : ℕ → Bool → List Text → List Text
extend b false (c ∷ cs) = (b ∷ c) ∷ cs
extend b _ cs = (b ∷ []) ∷ cs

-- `char_indices` without the indices: each character as its bytes.
unfoldable pub chars : Text → List Text
chars [] = []
chars (b ∷ bs) = extend b (begins_char bs) (chars bs)

-- `chars().count()`
abbrev pub char_count : Text → ℕ
char_count text = length (filter (λ b. not (is_continuation b)) text)

-- `text.chars().filter(char::is_ascii_digit).collect()`: a digit is one byte, and no other
-- character has such a byte.
unfoldable pub digits_of : Text → Text
digits_of text = filter is_ascii_digit text

-- `to_string` of an unsigned number, on fuel: a number below 10 ^ (fuel) has at most that many digits.
unfoldable pub decimal_from : ℕ → ℕ → Text
decimal_from zero n = []
decimal_from (suc fuel) n =
    let more = decimal_from fuel (n / 10) in
    if ltb n 10 then (b'0' + n) ∷ [] else more ++ (b'0' + n % 10) ∷ []

unfoldable pub decimal : ℕ → Text
unfolding decimal_from
decimal n = decimal_from 20 n

pub decimal_digit : (n : ℕ) → n < 10 → decimal n ≡ (b'0' + n) ∷ []
unfolding decimal
decimal_digit n h = ground arith

-- `&text[start..end]`; `none` is the panic at an offset that is out of range or inside a character.
unfoldable pub slice? : ℕ → ℕ → Text → Option Text
unfolding is_char_boundary
slice? start end text =
    if leb start end
      && leb end (length text)
      && (is_char_boundary text start && is_char_boundary text end)
    then some (slice start end text)
    else none

pub slice?-eq-some :
    (start end : ℕ) (text : Text) {t : Text}
    → slice? start end text ≡ some t
    → (start ≤ end) × (end ≤ length text) × (t ≡ slice start end text)
unfolding slice?
slice?-eq-some start end text h = ground arith

-- The bytes of a list of texts.
abbrev pub total_length : List Text → ℕ
total_length [] = 0
total_length (c ∷ cs) = length c + total_length cs

total_length-extend :
    (b : ℕ) (f : Bool) (cs : List Text) → total_length (extend b f cs) ≡ suc (total_length cs)
total_length-extend b false [] = refl
total_length-extend b false (c ∷ cs) = omega arith
total_length-extend b true cs = omega arith

-- Cutting a text into characters loses no byte.
pub total_length-chars : (text : Text) → total_length (chars text) ≡ length text
unfolding chars
total_length-chars [] = refl
total_length-chars (b ∷ bs) =
    omega (arith, total_length-extend b (begins_char bs) (chars bs), total_length-chars bs)
