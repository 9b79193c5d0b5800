-- ===== src/Guard/Crypto.antt =====
-- `encrypt_mapping` and `decrypt_mapping` of src/infra/crypto.rs.
use alfavibe_hack.Prelude.{Text, utf8, length, eqb, if◌then◌else◌, ◌++◌, ◌≡◌, refl, arith}
use alfavibe_hack.Guard.Run.{Result, Run, VaultError, map_err, ◌>>=◌}

-- The crates `hkdf` and `aes_gcm`.
pub record Cipher : Type 0 where
  pub hkdf : Text → Text → Text → Text  -- salt, key material, info
  pub encrypt : Text → Text → Text → Text → Result Text  -- key, nonce, message, associated data
  pub decrypt : Text → Text → Text → Text → Result Text

pub record EncryptedMapping : Type 0 where
  pub nonce : Text
  pub ciphertext : Text

-- What is encrypted is decrypted with the same key, nonce and associated data.
pub record IsCipher (c : Cipher) : Type 0 where
  pub decrypts :
      (key nonce msg aad ct : Text)
      → c.encrypt key nonce msg aad ≡ Result.ok ct
      → c.decrypt key nonce ct aad ≡ Result.ok msg

module _ (c : Cipher) (master : Text) where
  -- The key of a session, and of a system.
  unfoldable pub session_key : Text → Text → Text
  session_key session_id system_id = c.hkdf session_id master system_id

  -- `nonce` stands for the random bytes that the source draws.
  unfoldable pub encrypt_mapping : Text → Text → Text → Text → Run EncryptedMapping
  encrypt_mapping nonce session_id system_id plaintext = do
    ct ←
        map_err (λ e. VaultError.crypto (utf8 "aes encrypt: " ++ e))
          (c.encrypt (session_key session_id system_id) nonce plaintext system_id)
    Run.returned (record { nonce = nonce; ciphertext = ct })

  -- `Nonce::from_slice` panics on any other length.
  unfoldable pub decrypt_mapping : Text → Text → EncryptedMapping → Run Text
  decrypt_mapping session_id system_id mapping =
      if eqb (length mapping.nonce) 12
      then map_err (λ e. VaultError.crypto (utf8 "aes decrypt failed (bad key or tampered)"))
          (c.decrypt (session_key session_id system_id) mapping.nonce mapping.ciphertext system_id)
      else Run.panicked

  pub decrypt-encrypt :
      IsCipher c
      → (nonce session_id system_id plaintext : Text) (enc : EncryptedMapping) → length nonce ≡ 12
      → encrypt_mapping nonce session_id system_id plaintext ≡ Run.returned enc
      → decrypt_mapping session_id system_id enc ≡ Run.returned plaintext
  unfolding encrypt_mapping decrypt_mapping
  decrypt-encrypt law nonce session_id system_id plaintext enc size h =
      decrypted (c.encrypt (session_key session_id system_id) nonce plaintext system_id) refl h
    where
      decrypted :
          (r : Result Text)
          → c.encrypt (session_key session_id system_id) nonce plaintext system_id ≡ r
          → (map_err (λ e. VaultError.crypto (utf8 "aes encrypt: " ++ e)) r >>= λ ct.
              Run.returned (record { nonce = nonce; ciphertext = ct }))
            ≡ Run.returned enc
          → decrypt_mapping session_id system_id enc ≡ Run.returned plaintext
      decrypted (Result.ok ct) done e =
          let same : record { nonce = nonce; ciphertext = ct } ≡ enc = ground arith in
          rw
            (
              ← same,
              size,
              law.decrypts (session_key session_id system_id) nonce plaintext system_id ct done,
            )
            refl
      decrypted (Result.error x) done e = ground arith
