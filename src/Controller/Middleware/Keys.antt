-- ===== src/Controller/Middleware/Keys.antt =====
-- The two ways of `authenticate` in src/controller/middleware.rs to compare a key.
use alfavibe_hack.Prelude.{
  ◌<◌, ◌≡◌, some, Text, text_Eq, length, All, arith, ◌==◌, ==_iff, ==_refl, Bool-cases, inl, inr,
}
use alfavibe_hack.Prelude.Maps.{get}
use alfavibe_hack.Mask.Digest.{Digests, hex, sha256_hex}
use alfavibe_hack.Config.Keys.{decode_hex32, decode_hex32-hex}
use alfavibe_hack.Controller.Middleware.{ServerConfig, key_matches}

-- A digest is 32 bytes.
pub record IsDigest (dig : Digests) : Type 0 where
  pub sized : (t : Text) → length (dig.sha256 t) ≡ 32
  pub bytes : (t : Text) → All (λ b. b < 256) (dig.sha256 t)

module _ (dig : Digests) (is : IsDigest dig) (cfg : ServerConfig) where
  -- Where the configured digest of a system is the small hexadecimal form of a digest, a key is
  -- accepted by its bytes exactly if it is accepted by the comparison of the hexadecimal forms.
  pub key_matches-hex :
      (system_id key right : Text) (bytes : Text)
      → decode_hex32 (sha256_hex dig right) ≡ some bytes
      → get system_id cfg.system_key_bytes ≡ some bytes
      → key_matches dig cfg system_id key (sha256_hex dig right)
        ≡ (sha256_hex dig key == sha256_hex dig right)
  unfolding key_matches sha256_hex
  key_matches-hex system_id key right bytes decoded stored =
      let read = decode_hex32-hex (dig.sha256 right) (is.sized right) (is.bytes right) in
      let same : dig.sha256 right ≡ bytes = ground arith in
      elim (Bool-cases (dig.sha256 key == dig.sha256 right)) [
        | inl e ↦
            let equal = (==_iff (dig.sha256 key) (dig.sha256 right)).0 e in
            ground (arith, ==_refl (hex (dig.sha256 right)))
        | inr e ↦ ground (
          arith,
          ==_iff (dig.sha256 key) (dig.sha256 right),
          ==_iff (hex (dig.sha256 key)) (hex (dig.sha256 right)),
          decode_hex32-hex (dig.sha256 key) (is.sized key) (is.bytes key),
        )
      ]
