-- ===== src/Config/Profile.antt =====
-- The parts of src/config/model.rs and src/config/compiled.rs that policies are made of, and
-- `deep_merge_profile` of src/config/loader.rs.
use alfavibe_hack.Prelude.{
  ℕ, ℤ, Bool, true, false, not, List, [], ◌∷◌, Option, none, some, Text, text_Eq, eqb,
  if◌then◌else◌,
}
use alfavibe_hack.Prelude.Maps.{insert, remove}
use alfavibe_hack.Domain.PdType.{PdType}
use alfavibe_hack.Domain.Policy.{EffectivePolicy}

pub record TypeMaskConfig : Type 0 where
  pub mask : Option Text
  pub mode : Option Text
  pub keep_last : Option ℕ
  pub disabled : Option Bool

pub record ProfileNerConfig : Type 0 where
  pub enabled : Bool
  pub types : List PdType
  pub on_failure : Option Text

pub record RuleConfig : Type 0 where
  pub requires_any : List PdType
  pub requires_all : List PdType
  pub scope : Option Text
  pub window_chars : ℕ

-- A rule that is `none` takes the rule of the type away.
pub record RulesConfig : Type 0 where
  pub rules : List (PdType × Option RuleConfig)
  pub min_distinct_types : ℕ
  pub always_mask : List PdType

pub record ProfileConfig : Type 0 where
  pub types : List (PdType × TypeMaskConfig)
  pub ner : ProfileNerConfig
  pub filters : List Text
  pub combination : RulesConfig
  pub ambiguous_ids : Option Text
  pub demask : Option Bool

abbrev pub default_profile : ProfileConfig
default_profile = record {
  types = [];
  ner = record { enabled = false; types = []; on_failure = none };
  filters = [];
  combination = record { rules = []; min_distinct_types = 0; always_mask = [] };
  ambiguous_ids = none;
  demask = none;
}

-- `tm.disabled == Some(true)`
abbrev pub is_disabled : TypeMaskConfig → Bool
is_disabled tm = elim tm.disabled [ none ↦ false | some d ↦ d ]

unfoldable pub merge_types :
    List (PdType × TypeMaskConfig) → List (PdType × TypeMaskConfig) → List (PdType × TypeMaskConfig)
merge_types base [] = base
merge_types base ((t, tm) ∷ ov) =
    let dropped = merge_types (remove t base) ov in
    let set = merge_types (insert t tm base) ov in if is_disabled tm then dropped else set

unfoldable pub merge_rules :
    List (PdType × Option RuleConfig)
    → List (PdType × Option RuleConfig)
    → List (PdType × Option RuleConfig)
merge_rules base [] = base
merge_rules base ((t, none) ∷ ov) = merge_rules (remove t base) ov
merge_rules base ((t, some r) ∷ ov) = merge_rules (insert t (some r) base) ov

-- The override if it says something.
abbrev pub or_base {ℓ} : {A : Type ℓ} → Option A → Option A → Option A
or_base (some a) base = some a
or_base none base = base

abbrev pub or_list {ℓ} : {A : Type ℓ} → List A → List A → List A
or_list [] base = base
or_list (a ∷ as_) base = a ∷ as_

unfoldable pub deep_merge_profile : ProfileConfig → ProfileConfig → ProfileConfig
deep_merge_profile base ov = record {
  types = merge_types base.types ov.types;
  ner = record {
    enabled = if ov.ner.enabled then true else base.ner.enabled;
    types = or_list ov.ner.types base.ner.types;
    on_failure = or_base ov.ner.on_failure base.ner.on_failure;
  };
  filters = or_list ov.filters base.filters;
  combination = record {
    rules = merge_rules base.combination.rules ov.combination.rules;
    min_distinct_types =
        if not (eqb ov.combination.min_distinct_types 0)
        then ov.combination.min_distinct_types
        else base.combination.min_distinct_types;
    always_mask = or_list ov.combination.always_mask base.combination.always_mask;
  };
  ambiguous_ids = or_base ov.ambiguous_ids base.ambiguous_ids;
  demask = or_base ov.demask base.demask;
}

pub record RouteOverrideConfig : Type 0 where
  pub types : List (PdType × TypeMaskConfig)
  pub combination : Option RulesConfig
  pub demask : Option Bool

-- The headers of a match are compared when the configuration is checked, and not when a route is found.
pub record RouteMatch : Type 0 where
  pub method : Text
  pub path : Text
  pub path_prefix : Text
  pub header : List (Text × Text)

pub record RouteConfig : Type 0 where
  pub id : Text
  pub systems : List Text
  pub profile_override : Option Text
  pub types_override : List (PdType × TypeMaskConfig)
  pub response_demask : Bool
  pub match_ : RouteMatch
  pub upstream : Text
  pub json_paths : List Text
  pub response_json_paths : List Text
  pub action : Option Text

pub record CompiledConfig (S : Type 0) : Type 0 where
  pub system_enabled : List (Text × Bool)
  pub system_profile : List (Text × Text)
  pub system_overrides : List (Text × ProfileConfig)
  pub system_route_overrides : List (Text × List (Text × RouteOverrideConfig))
  pub system_demask : List (Text × Bool)
  pub routes : List RouteConfig
  pub profiles : List (Text × ProfileConfig)
  pub default_profile : Text
  pub default_action : Text
  pub placeholder_format : Text
  pub labels : List (PdType × Text)
  pub thresholds : List (PdType × S)
  pub priorities : List (PdType × ℤ)
  pub max_windows_per_request : ℕ
  pub trigger_words : List Text
  pub policies : List ((Text × Option Text) × EffectivePolicy S)
