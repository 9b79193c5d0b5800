-- ===== src/Guard/Sessions.antt =====
-- What the calls of `GuardService` in src/service/guard_service.rs on one session say to each other.
pub mod Systems
pub mod Contexts
pub mod Recorded
pub mod RoundTrip
use alfavibe_hack.Prelude.{
  ℕ, Bool, true, false, not, ◌&&◌, ◌≡◌, ◌≢◌, refl, sym, ap, ◌∙◌, subst, List, [], ◌∷◌, ◌++◌, Option,
  none, some, Text, text_Eq, utf8, length, ltb, take, drop, arith, Bool-cases, Option-cases, inl,
  inr, ◌==◌, ==_refl, ==_ne, if◌then◌else◌, take-append, drop-append, length-append,
}
use alfavibe_hack.Domain.Float32.{Float32}
use alfavibe_hack.Domain.Policy.{EffectivePolicy}
use alfavibe_hack.Domain.Unicode.{Unicode}
use alfavibe_hack.Pipeline.Line.{MaskLineResult}
use alfavibe_hack.Demask.{Mapping, MappingEntry}
use alfavibe_hack.Demask
use alfavibe_hack.Guard.Crypto.{
  Cipher, EncryptedMapping, IsCipher, session_key, decrypt_mapping, decrypt-encrypt,
  encrypt_mapping,
}
use alfavibe_hack.Guard.Run.{
  Result, Run, Run-cases, VaultError, fails, map_err, of_option, panics, returned, returns, ◌>>=◌,
}
use alfavibe_hack.Guard.Types.{Codec, GuardService, MaskResult, Outside, TzOutcome, Vault}
use alfavibe_hack.Guard.Service.{
  conclude, demask, encrypted, entries_of, forward, from_bytes, keep, known, lookup_mapping, mask,
  process_tz, run_line, stateless, to_bytes, or_fresh,
}

-- What was written with these crates can be read with them.
pub record IsCodec (c : Codec) : Type 0 where
  pub deserializes :
      (m : Mapping) (t : Text) → c.serialize m ≡ Result.ok t → c.deserialize t ≡ Result.ok m
  pub decodes : (t : Text) → c.decode (c.encode t) ≡ Result.ok t

-- While an entry lives, the vault gives back what was put.
pub record IsVault {V : Type 0} (vault : Vault V) : Type 0 where
  pub gets :
      (k : Text) (e : EncryptedMapping) (v v' : V)
      → vault.put k e v ≡ returned v'
      → vault.get k v' ≡ returned (some e)

module _ (F : Float32) (u : Unicode) {V : Type 0} (service : GuardService F.Carrier V)
    (cipher : IsCipher service.cipher) (codec : IsCodec service.codec) where
  from_bytes-to_bytes :
      (m : Mapping) (t : Text)
      → to_bytes F u service m ≡ returned t
      → from_bytes F u service t ≡ returned m
  unfolding to_bytes from_bytes
  from_bytes-to_bytes m t h = read (service.codec.serialize m) refl h
    where
      read :
          (r : Result Text)
          → service.codec.serialize m ≡ r
          → map_err VaultError.serialization r ≡ returned t
          → from_bytes F u service t ≡ returned m
      read (Result.ok s) done e =
          let same : s ≡ t = ground arith in rw (← same, codec.deserializes m s done) refl
      read (Result.error x) done e = ground arith

  -- A mapping that was encrypted for a session of a system.
  pub record Kept (system_id session nonce : Text) (m : Mapping) (enc : EncryptedMapping)
      : Type 0 where
    pub sized : length enc.nonce ≡ length nonce
    pub readable :
        (decrypt_mapping service.cipher service.master_key session system_id enc
          >>= from_bytes F u service)
        ≡ returned m

  pub encrypt-Kept :
      (system_id session nonce : Text) (m : Mapping) (bytes : Text) (enc : EncryptedMapping)
      → length nonce ≡ 12
      → to_bytes F u service m ≡ returned bytes
      → encrypt_mapping service.cipher service.master_key nonce session system_id bytes
        ≡ returned enc
      → Kept system_id session nonce m enc
  unfolding encrypt_mapping
  encrypt-Kept system_id session nonce m bytes enc size wrote enc_is = record {
    sized =
        elim (Run-cases (
          map_err (λ e. VaultError.crypto (utf8 "aes encrypt: " ++ e))
            (service.cipher.encrypt
              (session_key service.cipher service.master_key session system_id) nonce bytes
              system_id))) [
                | returns ct made ↦ ground arith
                | fails e made ↦ absurd (ground arith)
                | panics made ↦ absurd (ground arith)
              ];
    readable =
        rw
          (decrypt-encrypt service.cipher service.master_key cipher nonce session system_id bytes
            enc size enc_is)
          (from_bytes-to_bytes m bytes wrote);
  }

  -- A call of `mask` that is not a dry run and keeps the mapping.
  pub record Remembers (system_id text session nonce : Text) (r : MaskResult F.Carrier) (v v' : V)
      : Type 0 where
    pub kept : keep F u service system_id session nonce r.mapping v ≡ returned (r.mask_context, v')
    pub original : r.mapping.original ≡ text
    pub masked_text : r.mapping.masked ≡ r.text

  conclude-Remembers :
      (policy : EffectivePolicy F.Carrier) (system_id text session nonce : Text)
      (result : MaskLineResult F.Carrier) (r : MaskResult F.Carrier) (v v' : V)
      → policy.demask ≡ true
      → conclude F u service policy system_id text session nonce result v ≡ returned (r, v')
      → Remembers system_id text session nonce r v v'
  unfolding conclude
  conclude-Remembers policy system_id text session nonce result r v v' wants h =
      elim (Run-cases (entries_of text result.text result.records)) [
        | fails e made ↦ absurd (ground arith)
        | panics made ↦ absurd (ground arith)
        | returns entries listed ↦
            elim (Run-cases (
              keep F u service system_id session nonce
                (record { entries = entries; original = text; masked = result.text }) v)) [
                  | fails e made ↦ absurd (ground arith)
                  | panics made ↦ absurd (ground arith)
                  | returns (ctx, w) kept ↦
                      let same : w ≡ v' = ground arith in
                      let context : ctx ≡ r.mask_context = ground arith in
                      let mapped : record {
                        entries = entries;
                        original = text;
                        masked = result.text;
                      }
                          ≡ r.mapping =
                        ground arith in
                      record {
                        kept = rw (← same, ← mapped, ← context) kept;
                        original = ground arith;
                        masked_text = ground arith;
                      }
                ]
      ]

  pub mask-Remembers :
      (policy : EffectivePolicy F.Carrier) (system_id text session : Text) (out : Outside)
      (r : MaskResult F.Carrier) (v v' : V)
      → policy.demask ≡ true
      → mask F u service policy system_id text (some session) false out v ≡ returned (r, v')
      → Remembers system_id text session out.nonce r v v'
  unfolding mask
  mask-Remembers policy system_id text session out r v v' wants h =
      elim (Run-cases (run_line F u service policy text out)) [
        | fails e made ↦ absurd (ground arith)
        | panics made ↦ absurd (ground arith)
        | returns result ran ↦
            conclude-Remembers policy system_id text session out.nonce result r v v' wants
              (rw (mask, ran) at h)
      ]

  module _ (vault : IsVault service.vault) (in_vault : stateless F u service ≡ false) where
    pub lookup-keep :
        (system_id session nonce : Text) (m : Mapping) (v v' : V) (ctx : Option Text)
        → length nonce ≡ 12
        → keep F u service system_id session nonce m v ≡ returned (ctx, v')
        → lookup_mapping F u service system_id session v' ≡ returned (some m)
    unfolding keep lookup_mapping
    lookup-keep system_id session nonce m v v' ctx size h =
        elim (Run-cases (to_bytes F u service m)) [
          | fails e made ↦ absurd (ground arith)
          | panics made ↦ absurd (ground arith)
          | returns bytes wrote ↦
              elim (Run-cases
                (encrypt_mapping service.cipher service.master_key nonce session system_id bytes)) [
                  | fails e made ↦ absurd (ground arith)
                  | panics made ↦ absurd (ground arith)
                  | returns enc done ↦ elim (Run-cases (service.vault.put session enc v)) [
                    | fails e made ↦ absurd (ground arith)
                    | panics made ↦ absurd (ground arith)
                    | returns w put ↦
                        let kept =
                          encrypt-Kept system_id session nonce m bytes enc size wrote done in
                        let same : w ≡ v' = ground arith in
                        let got = vault.gets session enc v w put in
                        rw (← same, in_vault, got, kept.readable) refl
                  ]
                ]
        ]
