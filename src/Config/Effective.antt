-- ===== src/Config/Effective.antt =====
-- `build_effective` and `enable_address_components` of src/config/loader.rs.
use alfavibe_hack.Prelude.{
  Bool, false, List, [], ◌∷◌, ◌++◌, Option, none, some, Text, text_Eq, utf8, if◌then◌else◌, ◌==◌,
}
use alfavibe_hack.Prelude.Maps.{contains_key, get_or, insert}
use alfavibe_hack.Combination.{holds}
use alfavibe_hack.Domain.PdType.{
  PdType, addr_city, addr_country, addr_flat, addr_house, addr_index, addr_region, addr_street,
  address,
}
use alfavibe_hack.Domain.Policy.{
  AddressMode, AmbiguousIdsMode, CombinationRuleConfig, CombinationScope, EffectivePolicy, MaskKind,
  NerOnFailure, PolicyAction,
}
use alfavibe_hack.Config.Profile.{
  CompiledConfig, ProfileConfig, RuleConfig, TypeMaskConfig, is_disabled,
}

-- `opt.as_deref() == Some(word)`
abbrev pub says : Text → Option Text → Bool
says word none = false
says word (some t) = t == word

unfoldable pub kind_of : Option Text → MaskKind
kind_of mask =
    if says (utf8 "redact") mask
    then MaskKind.redact
    else if says (utf8 "partial") mask
    then MaskKind.partial
    else if says (utf8 "token") mask
    then MaskKind.token
    else if says (utf8 "synthetic") mask
    then MaskKind.synthetic
    else if says (utf8 "hash") mask
    then MaskKind.hash
    else MaskKind.placeholder

unfoldable pub action_of : Text → PolicyAction
action_of action =
    if action == utf8 "bypass"
    then PolicyAction.bypass
    else if action == utf8 "block"
    then PolicyAction.block
    else PolicyAction.mask

unfoldable pub effective_rule : RuleConfig → CombinationRuleConfig
effective_rule r = record {
  requires_any = r.requires_any;
  requires_all = r.requires_all;
  scope =
      if says (utf8 "window") r.scope then CombinationScope.window else CombinationScope.document;
  window_chars = r.window_chars;
}

unfoldable pub effective_rules :
    List (PdType × Option RuleConfig) → List (PdType × CombinationRuleConfig)
effective_rules [] = []
effective_rules ((t, none) ∷ rs) = effective_rules rs
effective_rules ((t, some r) ∷ rs) = (t, effective_rule r) ∷ effective_rules rs

-- The types that an address is taken apart into.
abbrev pub component_types : List PdType
component_types =
    addr_country ∷ addr_index ∷ addr_region ∷ addr_city ∷ addr_street ∷ addr_house ∷ addr_flat ∷ []

module _ {S : Type 0} where
  -- One turn of the loop over the types of the profile.
  unfoldable pub add_type : EffectivePolicy S → PdType → TypeMaskConfig → EffectivePolicy S
  add_type ep t tm = if is_disabled tm then ep else record ep {
    types = ep.types ++ t ∷ [];
    mask_kinds = insert t (kind_of tm.mask) ep.mask_kinds;
    address_mode =
        if says (utf8 "components") tm.mode then AddressMode.components else ep.address_mode;
  }

  unfoldable pub add_types : EffectivePolicy S → List (PdType × TypeMaskConfig) → EffectivePolicy S
  add_types ep [] = ep
  add_types ep ((t, tm) ∷ ts) = add_types (add_type ep t tm) ts

  unfoldable pub add_component : MaskKind → EffectivePolicy S → PdType → EffectivePolicy S
  add_component kind ep t = record ep {
    types = if holds ep.types t then ep.types else ep.types ++ t ∷ [];
    mask_kinds =
        if contains_key t ep.mask_kinds then ep.mask_kinds else insert t kind ep.mask_kinds;
  }

  unfoldable pub add_components : MaskKind → EffectivePolicy S → List PdType → EffectivePolicy S
  add_components kind ep [] = ep
  add_components kind ep (t ∷ ts) = add_components kind (add_component kind ep t) ts

  unfoldable pub enable_address_components : EffectivePolicy S → EffectivePolicy S
  enable_address_components ep = elim ep.address_mode [
    | AddressMode.whole ↦ ep
    | AddressMode.components ↦
        if holds ep.types address
        then add_components (get_or address MaskKind.placeholder ep.mask_kinds) ep component_types
        else ep
  ]

  -- The policy before the types are added.
  unfoldable pub start_effective :
      CompiledConfig S → ProfileConfig → Bool → Text → EffectivePolicy S
  start_effective cfg p demask action = record {
    action = action_of action;
    types = [];
    demask = demask;
    ambiguous_ids =
        if says (utf8 "mask") p.ambiguous_ids then AmbiguousIdsMode.mask else AmbiguousIdsMode.skip;
    placeholder_format = cfg.placeholder_format;
    labels = cfg.labels;
    thresholds = cfg.thresholds;
    priorities = cfg.priorities;
    mask_kinds = [];
    address_mode = AddressMode.whole;
    ner_enabled = p.ner.enabled;
    ner_types = p.ner.types;
    ner_on_failure =
        if says (utf8 "fail") p.ner.on_failure then NerOnFailure.fail else NerOnFailure.degrade;
    max_windows_per_request = cfg.max_windows_per_request;
    trigger_words = cfg.trigger_words;
    filters = p.filters;
    combination = record {
      rules = effective_rules p.combination.rules;
      min_distinct_types = p.combination.min_distinct_types;
      always_mask = p.combination.always_mask;
    };
    json_paths = [];
    response_json_paths = [];
  }

  unfoldable pub build_effective :
      CompiledConfig S → ProfileConfig → Bool → Text → EffectivePolicy S
  build_effective cfg p demask action =
      enable_address_components (add_types (start_effective cfg p demask action) p.types)
