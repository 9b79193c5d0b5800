-- ===== src/Domain/Policy.antt =====
-- `EffectivePolicy` of src/domain/traits.rs and the types of its fields, with the output of a masker.
use alfavibe_hack.Prelude.{ℕ, ℤ, Bool, List, Text, Option}
use alfavibe_hack.Domain.PdType.{PdType}

pub data MaskKind : Type 0 where
  placeholder redact partial token synthetic hash : MaskKind

pub record MaskOutput : Type 0 where
  pub replacement : Text
  pub key : Option Text

pub data PolicyAction : Type 0 where
  mask bypass block : PolicyAction

pub data AmbiguousIdsMode : Type 0 where
  skip mask : AmbiguousIdsMode

pub data AddressMode : Type 0 where
  whole components : AddressMode

pub data NerOnFailure : Type 0 where
  degrade fail : NerOnFailure

pub data CombinationScope : Type 0 where
  document window : CombinationScope

pub record CombinationRuleConfig : Type 0 where
  pub requires_any : List PdType
  pub requires_all : List PdType
  pub scope : CombinationScope
  pub window_chars : ℕ

pub record CombinationConfig : Type 0 where
  pub rules : List (PdType × CombinationRuleConfig)
  pub min_distinct_types : ℕ
  pub always_mask : List PdType

pub record EffectivePolicy (S : Type 0) : Type 0 where
  pub action : PolicyAction
  pub types : List PdType
  pub demask : Bool
  pub ambiguous_ids : AmbiguousIdsMode
  pub placeholder_format : Text
  pub labels : List (PdType × Text)
  pub thresholds : List (PdType × S)
  pub priorities : List (PdType × ℤ)
  pub mask_kinds : List (PdType × MaskKind)
  pub address_mode : AddressMode
  pub ner_enabled : Bool
  pub ner_types : List PdType
  pub ner_on_failure : NerOnFailure
  pub max_windows_per_request : ℕ
  pub trigger_words : List Text
  pub filters : List Text
  pub combination : CombinationConfig
  pub json_paths : List Text
  pub response_json_paths : List Text
