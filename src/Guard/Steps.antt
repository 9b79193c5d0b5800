-- ===== src/Guard/Steps.antt =====
-- The answers of `process_tz` in src/service/guard_service.rs on an identifier that is known.
use alfavibe_hack.Prelude.{
  true, false, ◌≡◌, ◌≢◌, refl, sym, ap, ◌∙◌, none, some, Text, text_Eq, length, arith, Option-cases,
  inl, inr, ==_refl, ==_ne,
}
use alfavibe_hack.Domain.Float32.{Float32}
use alfavibe_hack.Domain.Policy.{EffectivePolicy}
use alfavibe_hack.Domain.Unicode.{Unicode}
use alfavibe_hack.Demask.{Mapping, MappingEntry}
use alfavibe_hack.Demask
use alfavibe_hack.Guard.Crypto.{IsCipher}
use alfavibe_hack.Guard.Run.{Run-cases, fails, panics, returned, returns}
use alfavibe_hack.Guard.Types.{GuardService, MaskResult, Outside, TzOutcome}
use alfavibe_hack.Guard.Service.{forward, known, lookup_mapping, mask, process_tz, stateless}
use alfavibe_hack.Guard.Sessions.{IsCodec, IsVault, lookup-keep, mask-Remembers}

module _ (F : Float32) (u : Unicode) {V : Type 0} (service : GuardService F.Carrier V)
    (cipher : IsCipher service.cipher) (codec : IsCodec service.codec)
    (vault : IsVault service.vault) (in_vault : stateless F u service ≡ false) where
  forward-mask :
      (policy : EffectivePolicy F.Carrier) (system_id id payload : Text) (out : Outside)
      (r : MaskResult F.Carrier) (v v' : V)
      → forward F u service policy system_id id payload out v ≡ returned (TzOutcome.masked r, v')
      → mask F u service policy system_id payload (some id) false out v ≡ returned (r, v')
  unfolding forward
  forward-mask policy system_id id payload out r v v' h =
      elim (Run-cases (mask F u service policy system_id payload (some id) false out v)) [
        | fails e made ↦ absurd (ground arith)
        | panics made ↦ absurd (ground arith)
        | returns (q, w) made ↦ ground arith
      ]

  known-not_masked :
      (payload : Text) (m : Mapping) (r : MaskResult F.Carrier)
      → known F u service payload m ≢ returned (TzOutcome.masked r)
  unfolding known
  known-not_masked payload m r h =
      elim (Option-cases (Demask.demask service.codec.captures payload m)) [
        | inl none_ ↦ ground arith
        | inr (res, done) ↦ ground arith
      ]

  pub process_tz-unknown :
      (policy : EffectivePolicy F.Carrier) (system_id id payload : Text) (out : Outside) (v : V)
      → lookup_mapping F u service system_id id v ≡ returned none
      → process_tz F u service policy system_id id payload out v
        ≡ forward F u service policy system_id id payload out v
  unfolding process_tz
  process_tz-unknown policy system_id id payload out v none_ = ground arith

  pub process_tz-mask :
      (policy : EffectivePolicy F.Carrier) (system_id id payload : Text) (out : Outside)
      (r : MaskResult F.Carrier) (v v' : V)
      → policy.demask ≡ true
      → process_tz F u service policy system_id id payload out v ≡ returned (TzOutcome.masked r, v')
      → mask F u service policy system_id payload (some id) false out v ≡ returned (r, v')
  unfolding process_tz
  process_tz-mask policy system_id id payload out r v v' wants h =
      elim (Run-cases (lookup_mapping F u service system_id id v)) [
        | fails e made ↦ absurd (ground arith)
        | panics made ↦ absurd (ground arith)
        | returns none made ↦
            forward-mask policy system_id id payload out r v v'
              (sym (process_tz-unknown policy system_id id payload out v made) ∙ h)
        | returns (some m) made ↦ elim (Run-cases (known F u service payload m)) [
          | fails e known_ ↦ absurd (ground arith)
          | panics known_ ↦ absurd (ground arith)
          | returns outcome known_ ↦
              let same : outcome ≡ TzOutcome.masked r = ground arith in
              absurd (known-not_masked payload m r (known_ ∙ ap returned same))
        ]
      ]

  known-again :
      (m : Mapping) → known F u service m.original m ≡ returned (TzOutcome.repeated m.masked)
  unfolding known
  known-again m = rw (known, ==_refl m.original) refl

  known-back :
      (m : Mapping)
      → m.masked ≢ m.original
      → known F u service m.masked m ≡ returned (TzOutcome.restored m.original (length m.entries))
  unfolding known
  known-back m other = rw (known, ==_ne m.masked m.original other, ==_refl m.masked) refl

  process_tz-known :
      (policy : EffectivePolicy F.Carrier) (system_id id payload : Text) (out : Outside)
      (m : Mapping) (o : TzOutcome F.Carrier) (v : V)
      → policy.demask ≡ true
      → lookup_mapping F u service system_id id v ≡ returned (some m)
      → known F u service payload m ≡ returned o
      → process_tz F u service policy system_id id payload out v ≡ returned (o, v)
  unfolding process_tz
  process_tz-known policy system_id id payload out m o v wants looked answered =
      rw (process_tz, wants, looked, answered) refl

  -- The profile allows demasking, mappings stand in a vault, and a first call with an identifier
  -- masked the payload. Then another call with the identifier and the same payload answers with the
  -- same masked text, and leaves the vault as it is.
  pub process_tz-again :
      (policy : EffectivePolicy F.Carrier) (system_id id payload : Text) (out later : Outside)
      (r : MaskResult F.Carrier) (v v' : V)
      → policy.demask ≡ true
      → length out.nonce ≡ 12
      → process_tz F u service policy system_id id payload out v ≡ returned (TzOutcome.masked r, v')
      → process_tz F u service policy system_id id payload later v'
        ≡ returned (TzOutcome.repeated r.text, v')
  process_tz-again policy system_id id payload out later r v v' wants size h =
      let p =
        mask-Remembers F u service cipher codec policy system_id payload id out r v v' wants
          (process_tz-mask policy system_id id payload out r v v' wants h) in
      process_tz-known policy system_id id payload later r.mapping (TzOutcome.repeated r.text) v'
        wants
        (lookup-keep F u service cipher codec vault in_vault system_id id out.nonce r.mapping v v'
          r.mask_context size p.kept)
        (rw (← p.original, ← p.masked_text) (known-again r.mapping))

  -- The profile allows demasking, mappings stand in a vault, and a first call with an identifier
  -- masked the payload and changed it. Then a call with the identifier and the masked text answers
  -- with the payload, and leaves the vault as it is.
  pub process_tz-back :
      (policy : EffectivePolicy F.Carrier) (system_id id payload : Text) (out later : Outside)
      (r : MaskResult F.Carrier) (v v' : V)
      → policy.demask ≡ true
      → length out.nonce ≡ 12
      → process_tz F u service policy system_id id payload out v ≡ returned (TzOutcome.masked r, v')
      → r.text ≢ payload
      → process_tz F u service policy system_id id r.text later v'
        ≡ returned (TzOutcome.restored payload (length r.mapping.entries), v')
  process_tz-back policy system_id id payload out later r v v' wants size h other =
      let p =
        mask-Remembers F u service cipher codec policy system_id payload id out r v v' wants
          (process_tz-mask policy system_id id payload out r v v' wants h) in
      process_tz-known policy system_id id r.text later r.mapping
        (TzOutcome.restored payload (length r.mapping.entries)) v' wants
        (lookup-keep F u service cipher codec vault in_vault system_id id out.nonce r.mapping v v'
          r.mask_context size p.kept)
        (rw (← p.original, ← p.masked_text)
          (known-back r.mapping (rw (p.original, p.masked_text) other)))
