-- ===== src/Guard/Refines.antt =====
-- What `process_tz` of src/service/guard_service.rs promises: a dictionary of the payloads of a system
-- and of their masked texts, from which each call answers.
pub mod Runs
use alfavibe_hack.Prelude.{
  true, false, ◌≡◌, ◌≢◌, ◌⊎◌, inl, inr, refl, sym, ap, ◌∙◌, List, [], ◌∷◌, Option, none, some, Text,
  text_Eq, length, arith, Bool-cases, Option-cases, ==_refl, ==_ne, ==_iff, ◌==◌, if◌then◌else◌,
}
use alfavibe_hack.Domain.Float32.{Float32}
use alfavibe_hack.Domain.Policy.{EffectivePolicy}
use alfavibe_hack.Domain.Unicode.{Unicode}
use alfavibe_hack.Demask.{Mapping}
use alfavibe_hack.Demask
use alfavibe_hack.Guard.Crypto.{EncryptedMapping, IsCipher, encrypt_mapping}
use alfavibe_hack.Guard.Run.{Run, Run-cases, fails, panics, returned, returns, ◌>>=◌}
use alfavibe_hack.Guard.Types.{GuardService, MaskResult, Outside, TzOutcome, Vault, text_of}
use alfavibe_hack.Guard.Service.{
  forward, keep, known, lookup_mapping, mask, process_tz, stateless, to_bytes,
}
use alfavibe_hack.Guard.Sessions.{IsCodec, IsVault, lookup-keep, mask-Remembers}
use alfavibe_hack.Guard.Steps.{process_tz-unknown}

-- The payload of an identifier, and its masked text.
abbrev pub Dictionary : Type 0
Dictionary = Text → Option (Text × Text)

abbrev pub update : Dictionary → Text → Text × Text → Dictionary
update a id p j = if id == j then some p else a j

-- A call with an identifier and a payload, the answer, and the dictionary after it.
pub data Answers (a : Dictionary) (id payload : Text) : Text → Dictionary → Type 0 where
  first : (text : Text) → a id ≡ none → Answers a id payload text (update a id (payload, text))
  again : (text : Text) → a id ≡ some (payload, text) → Answers a id payload text a
  back : (text : Text) → a id ≡ some (text, payload) → payload ≢ text → Answers a id payload text a
  filled :
      (o m text : Text)
      → a id ≡ some (o, m)
      → payload ≢ o
      → payload ≢ m
      → Answers a id payload text a

-- A put changes no other key of the vault.
pub record KeepsOthers {V : Type 0} (vault : Vault V) : Type 0 where
  pub undisturbed :
      (j k : Text) (e : EncryptedMapping) (v v' : V)
      → k ≢ j
      → vault.put k e v ≡ returned v'
      → vault.get j v' ≡ vault.get j v

abbrev pub view : Option Mapping → Option (Text × Text)
view none = none
view (some m) = some (m.original, m.masked)

module _ (F : Float32) (u : Unicode) {V : Type 0} (service : GuardService F.Carrier V)
    (system_id : Text) where
  -- The mappings that a system reads from the vault are those of the dictionary.
  abbrev pub Represents : V → Dictionary → Type 0
  Represents v a =
      (id : Text)
      → (m : Option Mapping) × (lookup_mapping F u service system_id id v ≡ returned m)
        × (view m ≡ a id)

module _ (F : Float32) (u : Unicode) {V : Type 0} (service : GuardService F.Carrier V)
    (cipher : IsCipher service.cipher) (codec : IsCodec service.codec)
    (vault : IsVault service.vault) (others : KeepsOthers service.vault)
    (in_vault : stateless F u service ≡ false) (policy : EffectivePolicy F.Carrier)
    (system_id : Text) where
  lookup-keep_ne :
      (j session nonce : Text) (m : Mapping) (v v' : V) (ctx : Option Text)
      → session ≢ j
      → keep F u service system_id session nonce m v ≡ returned (ctx, v')
      → lookup_mapping F u service system_id j v' ≡ lookup_mapping F u service system_id j v
  unfolding keep lookup_mapping
  lookup-keep_ne j session nonce m v v' ctx differ h = elim (Run-cases (to_bytes F u service m)) [
    | fails e made ↦ absurd (ground arith)
    | panics made ↦ absurd (ground arith)
    | returns bytes wrote ↦
        elim (Run-cases
          (encrypt_mapping service.cipher service.master_key nonce session system_id bytes)) [
            | fails e made ↦ absurd (ground arith)
            | panics made ↦ absurd (ground arith)
            | returns enc done ↦ elim (Run-cases (service.vault.put session enc v)) [
              | fails e made ↦ absurd (ground arith)
              | panics made ↦ absurd (ground arith)
              | returns w put ↦
                  let same : w ≡ v' = ground arith in
                  rw (← same, in_vault, others.undisturbed j session enc v w differ put) refl
            ]
          ]
  ]

  -- A call that finds nothing masks the payload and remembers it.
  forward-Represents :
      (a : Dictionary) (id payload : Text) (out : Outside) (o : TzOutcome F.Carrier) (v v' : V)
      → policy.demask ≡ true
      → length out.nonce ≡ 12
      → Represents F u service system_id v a
      → forward F u service policy system_id id payload out v ≡ returned (o, v')
      → Represents F u service system_id v' (update a id (payload, text_of o))
  unfolding forward text_of
  forward-Represents a id payload out o v v' wants size shown h =
      elim (Run-cases (mask F u service policy system_id payload (some id) false out v)) [
        | fails e made ↦ absurd (ground arith)
        | panics made ↦ absurd (ground arith)
        | returns (r, w) made ↦
            let masked_as : TzOutcome.masked r ≡ o = ground arith in
            let same : w ≡ v' = ground arith in
            let p =
              mask-Remembers F u service cipher codec policy system_id payload id out r v w wants
                made in
            rw (← same, ← masked_as)
              (λ j. elim (Bool-cases (id == j)) [
                | inl here ↦
                    let key : id ≡ j = (==_iff id j).0 here in
                    (
                      some r.mapping,
                      rw (← key) (
                          lookup-keep F u service cipher codec vault in_vault system_id id out.nonce
                            r.mapping v w r.mask_context size p.kept),
                      rw (here, p.original, p.masked_text) refl,
                    )
                | inr away ↦
                    let (m, looked, seen) = shown j in
                    (
                      m,
                      lookup-keep_ne j id out.nonce r.mapping v w r.mask_context
                            (λ e. ground (arith, ==_iff id j)) p.kept
                          ∙ looked,
                      rw away seen,
                    )
              ])
      ]

  known-Answers :
      (a : Dictionary) (id payload : Text) (m : Mapping) (o : TzOutcome F.Carrier)
      → a id ≡ some (m.original, m.masked)
      → known F u service payload m ≡ returned o
      → Answers a id payload (text_of o) a
  unfolding known text_of
  known-Answers a id payload m o is h = elim (Bool-cases (payload == m.original)) [
    | inl same ↦
        let told : TzOutcome.repeated m.masked ≡ o = ground arith in
        rw (← told) (Answers.again m.masked (rw ((==_iff payload m.original).0 same) is))
    | inr new ↦ elim (Bool-cases (payload == m.masked)) [
      | inl same ↦
          let told : TzOutcome.restored m.original (length m.entries) ≡ o = ground arith in
          rw (← told) (
            Answers.back m.original (rw ((==_iff payload m.masked).0 same) is)
              (λ e. ground (arith, ==_iff payload m.original)))
      | inr other ↦
          Answers.filled m.original m.masked (text_of o) is
            (λ e. ground (arith, ==_iff payload m.original))
            (λ e. ground (arith, ==_iff payload m.masked))
    ]
  ]

  -- The profile allows demasking, and mappings stand in a vault that keeps what was put and the other
  -- keys. Whenever the vault represents a dictionary, a call of `process_tz` that returns gives the
  -- answer of a call on the dictionary, and leaves a vault that represents the dictionary after it.
  pub process_tz-Answers :
      (a : Dictionary) (id payload : Text) (out : Outside) (o : TzOutcome F.Carrier) (v v' : V)
      → policy.demask ≡ true
      → length out.nonce ≡ 12
      → Represents F u service system_id v a
      → process_tz F u service policy system_id id payload out v ≡ returned (o, v')
      → (a' : Dictionary) × Answers a id payload (text_of o) a'
        × Represents F u service system_id v' a'
  unfolding process_tz
  process_tz-Answers a id payload out o v v' wants size shown h = by_mapping (shown id)
    where
      by_mapping :
          (m : Option Mapping) × (lookup_mapping F u service system_id id v ≡ returned m)
            × (view m ≡ a id)
          → (a' : Dictionary) × Answers a id payload (text_of o) a'
            × Represents F u service system_id v' a'
      by_mapping (none, looked, seen) = (
        update a id (payload, text_of o),
        Answers.first (text_of o) (sym seen),
        forward-Represents a id payload out o v v' wants size shown (
            sym (
              process_tz-unknown F u service cipher codec vault in_vault policy system_id id payload
                out v looked)
            ∙ h),
      )
      by_mapping (some m, looked, seen) = elim (Run-cases (known F u service payload m)) [
        | fails e told ↦ absurd (ground arith)
        | panics told ↦ absurd (ground arith)
        | returns x told ↦
            let same : v ≡ v' = ground arith in
            let outcome : x ≡ o = ground arith in
            (a, rw (← outcome) (known-Answers a id payload m x (sym seen) told), rw (← same) shown)
      ]
