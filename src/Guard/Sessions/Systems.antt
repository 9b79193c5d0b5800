-- ===== src/Guard/Sessions/Systems.antt =====
-- Two systems of src/service/guard_service.rs that use one session identifier.
use alfavibe_hack.Prelude.{
  true, false, ◌≡◌, ◌≢◌, refl, sym, Option, none, Text, text_Eq, utf8, length, arith, ◌++◌,
}
use alfavibe_hack.Domain.Float32.{Float32}
use alfavibe_hack.Domain.Policy.{EffectivePolicy}
use alfavibe_hack.Domain.Unicode.{Unicode}
use alfavibe_hack.Demask.{Mapping}
use alfavibe_hack.Guard.Crypto.{
  Cipher, EncryptedMapping, IsCipher, decrypt_mapping, encrypt_mapping, session_key,
}
use alfavibe_hack.Guard.Run.{
  Result, Run-cases, VaultError, fails, failed, map_err, panics, returned, returns, ◌>>=◌,
}
use alfavibe_hack.Guard.Types.{GuardService, MaskResult, Outside, TzOutcome}
use alfavibe_hack.Guard.Service.{forward, keep, lookup_mapping, process_tz, stateless, to_bytes}
use alfavibe_hack.Guard.Sessions.{IsCodec, IsVault, mask-Remembers}
use alfavibe_hack.Guard.Steps.{process_tz-mask, process_tz-unknown}

-- Decryption checks the associated data: with other data than at the encryption it is an error.
pub record IsAuthentic (c : Cipher) : Type 0 where
  pub refuses :
      (key key' nonce msg aad aad' ct : Text)
      → c.encrypt key nonce msg aad ≡ Result.ok ct
      → aad ≢ aad'
      → (e : Text) × (c.decrypt key' nonce ct aad' ≡ Result.error e)

module _ (c : Cipher) (authentic : IsAuthentic c) (master : Text) where
  decrypt-other :
      (nonce session system_id other plaintext : Text) (enc : EncryptedMapping)
      → length nonce ≡ 12
      → system_id ≢ other
      → encrypt_mapping c master nonce session system_id plaintext ≡ returned enc
      → decrypt_mapping c master session other enc
        ≡ failed (VaultError.crypto (utf8 "aes decrypt failed (bad key or tampered)"))
  unfolding encrypt_mapping decrypt_mapping
  decrypt-other nonce session system_id other plaintext enc size differ h =
      refused (c.encrypt (session_key c master session system_id) nonce plaintext system_id) refl h
    where
      refused :
          (r : Result Text)
          → c.encrypt (session_key c master session system_id) nonce plaintext system_id ≡ r
          → (map_err (λ e. VaultError.crypto (utf8 "aes encrypt: " ++ e)) r >>= λ ct.
              returned (record { nonce = nonce; ciphertext = ct }))
            ≡ returned enc
          → decrypt_mapping c master session other enc
            ≡ failed (VaultError.crypto (utf8 "aes decrypt failed (bad key or tampered)"))
      refused (Result.ok ct) done e =
          let same : record { nonce = nonce; ciphertext = ct } ≡ enc = ground arith in
          let (x, refusal) =
            authentic.refuses (session_key c master session system_id)
              (session_key c master session other) nonce plaintext system_id other ct done differ in
          rw (← same, size, refusal) refl
      refused (Result.error x) done e = ground arith

module _ (F : Float32) (u : Unicode) {V : Type 0} (service : GuardService F.Carrier V)
    (cipher : IsCipher service.cipher) (authentic : IsAuthentic service.cipher)
    (codec : IsCodec service.codec) (vault : IsVault service.vault)
    (in_vault : stateless F u service ≡ false) where
  lookup-keep_other :
      (system_id other session nonce : Text) (m : Mapping) (v v' : V) (ctx : Option Text)
      → length nonce ≡ 12
      → system_id ≢ other
      → keep F u service system_id session nonce m v ≡ returned (ctx, v')
      → lookup_mapping F u service other session v' ≡ returned none
  unfolding keep lookup_mapping
  lookup-keep_other system_id other session nonce m v v' ctx size differ h =
      elim (Run-cases (to_bytes F u service m)) [
        | fails e made ↦ absurd (ground arith)
        | panics made ↦ absurd (ground arith)
        | returns bytes wrote ↦
            elim (Run-cases
              (encrypt_mapping service.cipher service.master_key nonce session system_id bytes)) [
                | fails e made ↦ absurd (ground arith)
                | panics made ↦ absurd (ground arith)
                | returns enc done ↦ elim (Run-cases (service.vault.put session enc v)) [
                  | fails e made ↦ absurd (ground arith)
                  | panics made ↦ absurd (ground arith)
                  | returns w put ↦
                      let same : w ≡ v' = ground arith in
                      let got = vault.gets session enc v w put in
                      rw
                        (
                          ← same,
                          in_vault,
                          got,
                          decrypt-other service.cipher authentic service.master_key nonce session
                              system_id other bytes enc size differ done,
                        )
                        refl
                ]
              ]
      ]

  -- Both systems may demask and mappings stand in a vault. One system's first call with an identifier
  -- masked a payload; then a call of another system with the same identifier masks its payload
  -- afresh, and reads nothing of the mapping of the first.
  pub process_tz-other :
      (policy policy' : EffectivePolicy F.Carrier) (system_id other id payload payload' : Text)
      (out out' : Outside) (r : MaskResult F.Carrier) (v v' : V)
      → policy.demask ≡ true
      → length out.nonce ≡ 12
      → system_id ≢ other
      → process_tz F u service policy system_id id payload out v ≡ returned (TzOutcome.masked r, v')
      → process_tz F u service policy' other id payload' out' v'
        ≡ forward F u service policy' other id payload' out' v'
  process_tz-other policy policy' system_id other id payload payload' out out' r v v' wants size
        differ h =
      let p = mask-Remembers F u service cipher codec policy system_id payload id out r v v' wants (
        process_tz-mask F u service cipher codec vault in_vault policy system_id id payload out r v
          v' wants h) in
      process_tz-unknown F u service cipher codec vault in_vault policy' other id payload' out' v' (
        lookup-keep_other system_id other id out.nonce r.mapping v v' r.mask_context size differ
          p.kept)

  -- But the identifier alone is the key of the vault: when the other system's call has masked its
  -- payload too, the first system's masked text is not put back any more, but masked as a new payload.
  pub process_tz-overwritten :
      (policy policy' : EffectivePolicy F.Carrier) (system_id other id payload payload' : Text)
      (out out' later : Outside) (r r' : MaskResult F.Carrier) (v v' v'' : V)
      → policy.demask ≡ true
      → policy'.demask ≡ true
      → length out.nonce ≡ 12
      → length out'.nonce ≡ 12
      → system_id ≢ other
      → process_tz F u service policy system_id id payload out v ≡ returned (TzOutcome.masked r, v')
      → process_tz F u service policy' other id payload' out' v'
        ≡ returned (TzOutcome.masked r', v'')
      → process_tz F u service policy system_id id r.text later v''
        ≡ forward F u service policy system_id id r.text later v''
  process_tz-overwritten policy policy' system_id other id payload payload' out out' later r r' v v'
        v'' wants wants' size size' differ h h' =
      process_tz-other policy' policy other system_id id payload' r.text out' later r' v' v'' wants'
        size' (λ e. differ (sym e)) h'
