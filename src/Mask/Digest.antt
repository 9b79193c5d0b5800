-- ===== src/Mask/Digest.antt =====
-- `hmac_token`, `sha256_hex` and `hex8` of src/infra/crypto.rs over the digests of the crates that
-- they call, which are a parameter.
use alfavibe_hack.Prelude.{
  ℕ, ◌+◌, ◌-◌, ◌*◌, ◌/◌, ◌%◌, [], ◌∷◌, Text, ltb, leb, if◌then◌else◌, take, foldl,
}

-- HMAC-SHA256 of a key and a text, SHA-256 of a text: 32 bytes each.
pub record Digests : Type 0 where
  pub hmac : Text → Text → Text
  pub sha256 : Text → Text

-- One digit of `{b:02x}`.
abbrev pub hex_digit : ℕ → ℕ
hex_digit d = if ltb d 10 then b'0' + d else b'a' + d - 10

unfoldable pub hex : Text → Text
hex [] = []
hex (b ∷ bs) = hex_digit (b / 16) ∷ hex_digit (b % 16) ∷ hex bs

unfoldable pub hex8 : Text → Text
unfolding hex
hex8 bytes = hex (take 4 bytes)

unfoldable pub hmac_token : Digests → Text → Text → Text
unfolding hex8
hmac_token dig secret text = hex8 (dig.hmac secret text)

unfoldable pub sha256_hex : Digests → Text → Text
unfolding hex
sha256_hex dig text = hex (dig.sha256 text)

-- `u64::from_str_radix(_, 16)` of a text of hexadecimal digits.
unfoldable pub from_hex : Text → ℕ
from_hex s = foldl (λ n c. 16 * n + (if leb b'a' c then c + 10 - b'a' else c - b'0')) 0 s
