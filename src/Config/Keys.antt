-- ===== src/Config/Keys.antt =====
-- `decode_hex32` of src/config/loader.rs: the digest of a system's key as 32 bytes.
use alfavibe_hack.Prelude.{
  ℕ, ◌+◌, ◌-◌, ◌*◌, ◌/◌, ◌%◌, ◌<◌, ◌≡◌, refl, ◌&&◌, not, [], ◌∷◌, Option, none, some, Text, text_Eq,
  length, eqb, leb, if◌then◌else◌, arith, All, ◌>>=◌,
}
use alfavibe_hack.Mask.Digest.{hex, hex_digit}

-- `char::to_digit(16)`
unfoldable pub to_digit : ℕ → Option ℕ
to_digit c =
    if leb b'0' c && leb c b'9'
    then some (c - b'0')
    else if leb b'a' c && leb c b'f'
    then some (c - b'a' + 10)
    else if leb b'A' c && leb c b'F'
    then some (c - b'A' + 10)
    else none

-- Two digits make a byte; the length is even where this is called.
unfoldable pub decode_pairs : Text → Option Text
decode_pairs [] = some []
decode_pairs (c ∷ []) = none
decode_pairs (c ∷ d ∷ cs) = do
  hi ← to_digit c
  lo ← to_digit d
  rest ← decode_pairs cs
  some ((16 * hi + lo) ∷ rest)

unfoldable pub decode_hex32 : Text → Option Text
decode_hex32 s = if not (eqb (length s) 64) then none else decode_pairs s

to_digit-hex_digit : (d : ℕ) → d < 16 → to_digit (hex_digit d) ≡ some d
unfolding to_digit
to_digit-hex_digit d h = ground arith

decode_pairs-hex : (bs : Text) → All (λ b. b < 256) bs → decode_pairs (hex bs) ≡ some bs
unfolding hex decode_pairs
decode_pairs-hex [] h = refl
decode_pairs-hex (b ∷ bs) (small, rest) =
    let whole : 16 * (b / 16) + b % 16 ≡ b = omega arith in
    rw
      (
        to_digit-hex_digit (b / 16) (omega arith),
        to_digit-hex_digit (b % 16) (omega arith),
        decode_pairs-hex bs rest,
        whole,
      )
      refl

length-hex : (bs : Text) → length (hex bs) ≡ 2 * length bs
unfolding hex
length-hex [] = refl
length-hex (b ∷ bs) = omega (arith, length-hex bs)

-- The hexadecimal form of 32 bytes is decoded to these bytes.
pub decode_hex32-hex :
    (bs : Text) → length bs ≡ 32 → All (λ b. b < 256) bs → decode_hex32 (hex bs) ≡ some bs
unfolding decode_hex32
decode_hex32-hex bs size small = ground (arith, length-hex bs, decode_pairs-hex bs small)
