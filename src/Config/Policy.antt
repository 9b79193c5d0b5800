-- ===== src/Config/Policy.antt =====
-- `resolve_policy` of src/config/loader.rs.
use alfavibe_hack.Prelude.{
  Bool, true, false, not, ◌&&◌, ◌||◌, List, [], ◌∷◌, Option, none, some, Text, text_Eq,
  if◌then◌else◌, ◌==◌, any, find,
}
use alfavibe_hack.Prelude.Maps.{get, get_or, insert}
use alfavibe_hack.Domain.PdType.{PdType}
use alfavibe_hack.Domain.Policy.{EffectivePolicy}
use alfavibe_hack.Config.Profile.{
  CompiledConfig, ProfileConfig, RouteConfig, RouteOverrideConfig, TypeMaskConfig,
  deep_merge_profile, default_profile, or_base,
}
use alfavibe_hack.Config.Effective.{build_effective}

pub data PolicyError : Type 0 where
  unknown_system system_disabled route_forbidden : PolicyError

pub data Resolved (S : Type 0) : Type 0 where
  resolved : EffectivePolicy S → Resolved S
  refused : PolicyError → Resolved S

abbrev is_empty : Text → Bool
is_empty [] = true
is_empty (_ ∷ _) = false

abbrev nonempty : Text → Option Text
nonempty [] = none
nonempty (c ∷ cs) = some (c ∷ cs)

abbrev pub or_empty : Option Text → Text
or_empty none = []
or_empty (some t) = t

abbrev is_none : List Text → Bool
is_none [] = true
is_none (_ ∷ _) = false

unfoldable pub set_types :
    List (PdType × TypeMaskConfig) → List (PdType × TypeMaskConfig) → List (PdType × TypeMaskConfig)
set_types base [] = base
set_types base ((t, tm) ∷ ov) = set_types (insert t tm base) ov

unfoldable pub merge_route : Option RouteConfig → ProfileConfig → ProfileConfig
merge_route none p = p
merge_route (some r) p = record p { types = set_types p.types r.types_override }

unfoldable pub merge_route_override : Option RouteOverrideConfig → ProfileConfig → ProfileConfig
merge_route_override none p = p
merge_route_override (some ro) p = record p {
  types = set_types p.types ro.types;
  combination = elim ro.combination [ none ↦ p.combination | some c ↦ c ];
  demask = or_base ro.demask p.demask;
}

-- A route that names systems is for these only; an unknown route is for all.
unfoldable pub admits : Option RouteConfig → Text → Bool
admits none system_id = true
admits (some r) system_id = is_none r.systems || any (λ s. s == system_id) r.systems

abbrev pub demask_of : Option RouteConfig → Bool
demask_of none = true
demask_of (some r) = r.response_demask

module _ {S : Type 0} (cfg : CompiledConfig S) where
  unfoldable pub route_of : Option Text → Option RouteConfig
  route_of none = none
  route_of (some id) = find (λ r. r.id == id) cfg.routes

  abbrev override_of : Option RouteConfig → Option Text
  override_of none = none
  override_of (some r) = r.profile_override

  -- The profile of the route, of the system, or of the defaults.
  unfoldable pub base_profile : Option RouteConfig → Text → ProfileConfig
  base_profile route system_id =
      let named = or_base (override_of route) (
        or_base (nonempty (get_or system_id [] cfg.system_profile))
          (nonempty cfg.default_profile)) in
      get_or (or_empty named) default_profile cfg.profiles

  abbrev system_merged : Text → ProfileConfig → ProfileConfig
  system_merged system_id p = elim (get system_id cfg.system_overrides) [
    | none ↦ p
    | some ov ↦ deep_merge_profile p ov
  ]

  abbrev route_override : Text → Option Text → Option RouteOverrideConfig
  route_override system_id none = none
  route_override system_id (some id) = elim (get system_id cfg.system_route_overrides) [
    | none ↦ none
    | some m ↦ get id m
  ]

  -- The profile with everything that overrides it, the last one first.
  unfoldable pub merged_profile : Text → Option Text → ProfileConfig
  merged_profile system_id route_id = merge_route_override (route_override system_id route_id) (
      merge_route (route_of route_id)
        (system_merged system_id (base_profile (route_of route_id) system_id)))

  abbrev allowed : Option Bool → Bool
  allowed none = true
  allowed (some d) = d

  unfoldable pub demask_allowed : Text → Option Text → Bool
  demask_allowed system_id route_id =
      demask_of (route_of route_id)
      && get_or system_id false cfg.system_demask
      && allowed (merged_profile system_id route_id).demask

  abbrev pub action_for : Option RouteConfig → Text
  action_for none = cfg.default_action
  action_for (some r) = elim r.action [ none ↦ cfg.default_action | some a ↦ a ]

  unfoldable pub resolve_policy : Text → Option Text → Resolved S
  resolve_policy system_id route_id = elim (get system_id cfg.system_enabled) [
    | none ↦ Resolved.refused PolicyError.unknown_system
    | some enabled ↦
        if not enabled
        then Resolved.refused PolicyError.system_disabled
        else if not (admits (route_of route_id) system_id)
        then Resolved.refused PolicyError.route_forbidden
        else Resolved.resolved (
            build_effective cfg (merged_profile system_id route_id)
              (demask_allowed system_id route_id) (action_for (route_of route_id)))
  ]
