-- ===== src/Guard/Refines/Runs.antt =====
-- Calls of `process_tz` in src/service/guard_service.rs that follow each other.
use alfavibe_hack.Prelude.{true, false, ◌≡◌, List, [], ◌∷◌, Text, text_Eq, length, arith, All}
use alfavibe_hack.Domain.Float32.{Float32}
use alfavibe_hack.Domain.Policy.{EffectivePolicy}
use alfavibe_hack.Domain.Unicode.{Unicode}
use alfavibe_hack.Guard.Crypto.{IsCipher}
use alfavibe_hack.Guard.Run.{Run, Run-cases, fails, panics, returned, returns, ◌>>=◌}
use alfavibe_hack.Guard.Types.{GuardService, Outside, text_of}
use alfavibe_hack.Guard.Service.{process_tz, stateless}
use alfavibe_hack.Guard.Sessions.{IsCodec, IsVault}
use alfavibe_hack.Guard.Refines.{Answers, Dictionary, KeepsOthers, Represents, process_tz-Answers}

-- An identifier with a payload, and what the call draws from outside.
abbrev pub Call : Type 0
Call = (Text × Text) × Outside

-- Calls on the dictionary.
pub data AllAnswers : Dictionary → List Call → List Text → Dictionary → Type 0 where
  stop : {a : Dictionary} → AllAnswers a [] [] a
  call :
      {id payload text : Text} {out : Outside} {a a' a'' : Dictionary} {calls : List Call}
      {texts : List Text}
      → Answers a id payload text a'
      → AllAnswers a' calls texts a''
      → AllAnswers a (((id, payload), out) ∷ calls) (text ∷ texts) a''

module _ (F : Float32) (u : Unicode) {V : Type 0} (service : GuardService F.Carrier V) where
  -- Calls on the vault, for one policy and system.
  unfoldable pub serve : EffectivePolicy F.Carrier → Text → List Call → V → Run (List Text × V)
  serve policy system_id [] v = returned ([], v)
  serve policy system_id (((id, payload), out) ∷ calls) v = do
    (o, v') ← process_tz F u service policy system_id id payload out v
    (texts, v'') ← serve policy system_id calls v'
    returned (text_of o ∷ texts, v'')

  -- The profile allows demasking, and mappings stand in a vault that keeps what was put and the other
  -- keys. Then calls of `process_tz` that return one after the other answer as calls on the dictionary
  -- that the vault represents, and leave a vault that represents the dictionary after them.
  pub serve-AllAnswers :
      IsCipher service.cipher
      → IsCodec service.codec
      → IsVault service.vault
      → KeepsOthers service.vault
      → stateless F u service ≡ false
      → (policy : EffectivePolicy F.Carrier) (system_id : Text) (calls : List Call) (a : Dictionary)
        (texts : List Text) (v v' : V)
      → policy.demask ≡ true
      → All (λ (c : Call). length c.1.nonce ≡ 12) calls
      → Represents F u service system_id v a
      → serve policy system_id calls v ≡ returned (texts, v')
      → (a' : Dictionary) × AllAnswers a calls texts a' × Represents F u service system_id v' a'
  unfolding serve
  serve-AllAnswers cipher codec vault others in_vault policy system_id [] a texts v v' wants sizes
        shown h =
      let none_ : [] ≡ texts = ground arith in
      let same : v ≡ v' = ground arith in rw (← none_, ← same) (a, AllAnswers.stop, shown)
  serve-AllAnswers cipher codec vault others in_vault policy system_id
        (((id, payload), out) ∷ calls) a texts v v' wants sizes shown h =
      elim (Run-cases (process_tz F u service policy system_id id payload out v)) [
        | fails e made ↦ absurd (ground arith)
        | panics made ↦ absurd (ground arith)
        | returns (o, w) made ↦ elim (Run-cases (serve policy system_id calls w)) [
          | fails e more ↦ absurd (ground arith)
          | panics more ↦ absurd (ground arith)
          | returns (rest, x) more ↦
              let (a', one, shown') =
                process_tz-Answers F u service cipher codec vault others in_vault policy system_id a
                  id payload out o v w wants sizes.0 shown made in
              let (a'', all, shown'') =
                serve-AllAnswers cipher codec vault others in_vault policy system_id calls a' rest w
                  x wants sizes.1 shown' more in
              let told : text_of o ∷ rest ≡ texts = ground arith in
              let same : x ≡ v' = ground arith in
              (a'', rw (← told) (AllAnswers.call one all), rw (← same) shown'')
        ]
      ]
