-- ===== src/Mask.antt =====
-- src/service/mask.rs: the strategies that replace one value, and the parts of
-- src/infra/crypto.rs that they call.
pub mod Digest
pub mod Replace
pub mod Synthetic
pub mod Partial
use alfavibe_hack.Prelude.{
  ℕ, zero, suc, ◌+◌, ◌-◌, ◌/◌, ◌%◌, ◌^◌, Bool, true, false, List, [], ◌∷◌, ◌++◌, Option, none, some,
  Text, text_Eq, utf8, leb, eqb, if◌then◌else◌, is_ascii_digit, is_continuation, char_count, length,
  get_elem?, replicate, decimal, min, ◌==◌,
}
use alfavibe_hack.Prelude.Maps.{get, get_or}
use alfavibe_hack.Domain.PdType.{PdType, fio, card_number, phone, inn}
use alfavibe_hack.Domain.MaskState.{MaskState, next_number}
use alfavibe_hack.Domain.Policy.{MaskOutput}
use alfavibe_hack.Domain.Entity
use alfavibe_hack.Domain.Entity.{Entity}
use Digest.{Digests, hmac_token, sha256_hex, from_hex}
use Replace.{replace}
use Synthetic.{synthetic_card, synthetic_phone, synthetic_inn}
use Partial.{partial_text}

-- `none` is a panic.
abbrev pub MaskStep : Type 0
MaskStep = Option (MaskOutput × MaskState)

-- `SyntheticMasker::pick`
unfoldable pub pick : ℕ → List Text → Text
pick n [] = utf8 "Синтетик"
pick n (x ∷ xs) = elim (get_elem? (x ∷ xs) (n % length (x ∷ xs))) [ none ↦ x | some y ↦ y ]

module _ {S : Type 0} where
  -- `format!("{prefix}{n}")` with the number of the value.
  abbrev numbered : Text → Entity S → MaskState → MaskState × Text
  numbered sep e state =
      let (state', n) = next_number (Entity.pd_type e) (Entity.canonical e) state in
      (state', Entity.pd_type e ++ sep ++ decimal n)

  -- `PlaceholderMasker::mask`
  unfoldable pub placeholder_mask :
      Text → List (PdType × Text) → Entity S → Text → MaskState → MaskStep
  placeholder_mask format labels e original state =
      let label = get_or (Entity.pd_type e) (Entity.pd_type e) labels in
      let (state', n) = next_number (Entity.pd_type e) (Entity.canonical e) state in
      some (
        record {
          replacement = replace (utf8 "{n}") (decimal n) (replace (utf8 "{label}") label format);
          key = some (label ++ utf8 "_" ++ decimal n);
        },
        state',
      )

  -- `RedactMasker::mask`
  unfoldable pub redact_mask : Entity S → Text → MaskState → MaskStep
  redact_mask e original state =
      some (record { replacement = replicate (char_count original) b'*'; key = none }, state)

  -- `PartialMasker::mask`
  unfoldable pub partial_mask : ℕ → Entity S → Text → MaskState → MaskStep
  partial_mask keep_last e original state =
      let (state', key) = numbered (utf8 "_p") e state in
      some (record { replacement = partial_text keep_last original; key = some key }, state')

  module _ (dig : Digests) where
    -- `TokenMasker::mask`
    unfoldable pub token_mask : Text → Entity S → Text → MaskState → MaskStep
    token_mask secret e original state =
        let t = hmac_token dig secret (Entity.pd_type e ++ utf8 "|" ++ Entity.canonical e) in
        let out = utf8 "tok_" ++ Entity.pd_type e ++ utf8 "_" ++ t in
        some (record { replacement = out; key = some out }, state)

    -- `HashMasker::mask`
    unfoldable pub hash_mask : Entity S → Text → MaskState → MaskStep
    hash_mask e original state = some (
      record { replacement = utf8 "sha256:" ++ sha256_hex dig (Entity.canonical e); key = none },
      state,
    )

    -- `SyntheticMasker::seed`; a token that is no hexadecimal number counts as 0.
    unfoldable pub seed : Text → Entity S → ℕ
    seed secret e = from_hex (
        hmac_token dig secret (utf8 "synth|" ++ Entity.pd_type e ++ utf8 "|" ++ Entity.canonical e))

    -- The replacement that `SyntheticMasker::mask` makes for the type.
    unfoldable pub synthetic_text : Text → List Text → List Text → Entity S → Option Text
    synthetic_text secret first_names surnames e =
        let n = seed secret e in
        let t = Entity.pd_type e in
        if t == fio
        then some (pick (n / 2 ^ 8) surnames ++ utf8 " " ++ pick n first_names)
        else if t == card_number
        then some (synthetic_card n)
        else if t == phone
        then some (synthetic_phone n)
        else if t == inn
        then synthetic_inn n
        else some (utf8 "synth_" ++ hmac_token dig secret (utf8 "synth|" ++ Entity.canonical e))

    -- `SyntheticMasker::mask`
    unfoldable pub synthetic_mask :
        Text → List Text → List Text → Entity S → Text → MaskState → MaskStep
    synthetic_mask secret first_names surnames e original state =
        elim (synthetic_text secret first_names surnames e) [
          | none ↦ none
          | some out ↦
              let (state', key) = numbered (utf8 "_s") e state in
              some (record { replacement = out; key = some key }, state')
        ]
