-- ===== src/Guard/Sessions/Contexts.antt =====
-- `mask` and then `demask` of src/service/guard_service.rs, with a vault and without.
use alfavibe_hack.Prelude.{
  ℕ, true, false, ◌≡◌, refl, sym, ◌∙◌, Option, some, Text, length, ltb, take, drop, ◌++◌, arith,
  Bool-cases, inl, inr, take-append, drop-append, length-append,
}
use alfavibe_hack.Domain.Float32.{Float32}
use alfavibe_hack.Domain.Policy.{EffectivePolicy}
use alfavibe_hack.Domain.Unicode.{Unicode}
use alfavibe_hack.Demask.{Mapping}
use alfavibe_hack.Guard.Crypto.{EncryptedMapping, IsCipher, decrypt_mapping, encrypt_mapping}
use alfavibe_hack.Guard.Run.{Run-cases, fails, panics, returned, returns}
use alfavibe_hack.Guard.Types.{GuardService, MaskResult, Outside}
use alfavibe_hack.Guard.Service.{
  demask, encrypted, finish, from_bytes, keep, mask, stateless, to_bytes,
}
use alfavibe_hack.Guard.Sessions.{IsCodec, IsVault, Kept, encrypt-Kept, mask-Remembers}

pub take_two : (n : ℕ) (s t : Text) → n ≡ length s → take n (s ++ t) ≡ s
take_two n s t e = rw e (take-append s t)

pub drop_two : (n : ℕ) (s t : Text) → n ≡ length s → drop n (s ++ t) ≡ t
drop_two n s t e = rw e (drop-append s t)

module _ (F : Float32) (u : Unicode) {V : Type 0} (service : GuardService F.Carrier V)
    (cipher : IsCipher service.cipher) (codec : IsCodec service.codec)
    (vault : IsVault service.vault) where
  -- Where `demask` finds what `keep` kept.
  record Held (system_id session nonce : Text) (m : Mapping) (ctx : Option Text) (v' : V)
      : Type 0 where
    enc : EncryptedMapping
    kept : Kept F u service cipher codec system_id session nonce m enc
    holds_it : encrypted F u service session ctx v' ≡ returned enc

  in_context :
      (session : Text) (enc : EncryptedMapping) (v' : V)
      → stateless F u service ≡ true
      → length enc.nonce ≡ 12
      → encrypted F u service session (some (service.codec.encode (enc.nonce ++ enc.ciphertext))) v'
        ≡ returned enc
  unfolding encrypted
  in_context session enc v' is_stateless size =
      let long : ltb (length (enc.nonce ++ enc.ciphertext)) 12 ≡ false =
        ground (arith, length-append enc.nonce enc.ciphertext) in
      rw
        (
          is_stateless,
          codec.decodes (enc.nonce ++ enc.ciphertext),
          long,
          take_two 12 enc.nonce enc.ciphertext (sym size),
          drop_two 12 enc.nonce enc.ciphertext (sym size),
        )
        refl

  in_store :
      (session : Text) (enc : EncryptedMapping) (ctx : Option Text) (v v' : V)
      → stateless F u service ≡ false
      → service.vault.put session enc v ≡ returned v'
      → encrypted F u service session ctx v' ≡ returned enc
  unfolding encrypted
  in_store session enc ctx v v' in_vault put = rw (in_vault, vault.gets session enc v v' put) refl

  keep-Held :
      (system_id session nonce : Text) (m : Mapping) (ctx : Option Text) (v v' : V)
      → length nonce ≡ 12
      → keep F u service system_id session nonce m v ≡ returned (ctx, v')
      → Held system_id session nonce m ctx v'
  unfolding keep
  keep-Held system_id session nonce m ctx v v' size h = elim (Run-cases (to_bytes F u service m)) [
    | fails e made ↦ absurd (ground arith)
    | panics made ↦ absurd (ground arith)
    | returns bytes wrote ↦
        elim (Run-cases
          (encrypt_mapping service.cipher service.master_key nonce session system_id bytes)) [
            | fails e made ↦ absurd (ground arith)
            | panics made ↦ absurd (ground arith)
            | returns enc done ↦
                let kept =
                  encrypt-Kept F u service cipher codec system_id session nonce m bytes enc size
                    wrote done in
                elim (Bool-cases (stateless F u service)) [
                  | inl is_stateless ↦
                      let same : some (service.codec.encode (enc.nonce ++ enc.ciphertext)) ≡ ctx =
                        ground arith in
                      record {
                        enc = enc;
                        kept = kept;
                        holds_it =
                            rw (← same)
                              (in_context session enc v' is_stateless (kept.sized ∙ size));
                      }
                  | inr in_vault ↦ elim (Run-cases (service.vault.put session enc v)) [
                    | fails e made ↦ absurd (ground arith)
                    | panics made ↦ absurd (ground arith)
                    | returns w put ↦
                        let same : w ≡ v' = ground arith in
                        record {
                          enc = enc;
                          kept = kept;
                          holds_it = in_store session enc ctx v v' in_vault (rw (← same) put);
                        }
                  ]
                ]
          ]
  ]

  demask-Held :
      (policy : EffectivePolicy F.Carrier) (system_id session nonce text : Text) (m : Mapping)
      (ctx : Option Text) (v : V)
      → policy.demask ≡ true
      → Held system_id session nonce m ctx v
      → demask F u service policy system_id text session ctx v ≡ finish F u service session text m v
  unfolding demask
  demask-Held policy system_id session nonce text m ctx v wants held =
      elim (Run-cases
        (decrypt_mapping service.cipher service.master_key session system_id held.enc)) [
          | fails e made ↦ absurd (ground (arith, held.kept.readable))
          | panics made ↦ absurd (ground (arith, held.kept.readable))
          | returns plain made ↦
              let read : from_bytes F u service plain ≡ returned m =
                rw made at held.kept.readable in
              rw (demask, wants, held.holds_it, made, read) refl
        ]

  -- The profile allows demasking and `mask` returned, not in a dry run. Then `demask` for the same
  -- system and session, with the context that `mask` gave if there is no vault, finds the mapping of
  -- that call and fills it into any text.
  pub demask-mask :
      (policy : EffectivePolicy F.Carrier) (system_id session original text : Text) (out : Outside)
      (r : MaskResult F.Carrier) (v v' : V)
      → policy.demask ≡ true
      → length out.nonce ≡ 12
      → mask F u service policy system_id original (some session) false out v ≡ returned (r, v')
      → demask F u service policy system_id text session r.mask_context v'
        ≡ finish F u service session text r.mapping v'
  demask-mask policy system_id session original text out r v v' wants size h =
      let p =
        mask-Remembers F u service cipher codec policy system_id original session out r v v' wants
          h in
      demask-Held policy system_id session out.nonce text r.mapping r.mask_context v' wants
        (keep-Held system_id session out.nonce r.mapping r.mask_context v v' size p.kept)
