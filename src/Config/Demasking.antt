-- ===== src/Config/Demasking.antt =====
-- For whom the policies of src/config/loader.rs allow demasking.
use alfavibe_hack.Prelude.{
  ◌≡◌, refl, ◌∙◌, Bool, true, false, List, [], ◌∷◌, Option, some, Text, text_Eq, arith,
  Option-cases, Bool-cases, inl, inr,
}
use alfavibe_hack.Prelude.Maps.{get, get_or}
use alfavibe_hack.Domain.PdType.{PdType, address}
use alfavibe_hack.Domain.Policy.{EffectivePolicy, MaskKind}
use alfavibe_hack.Config.Profile.{CompiledConfig, ProfileConfig, TypeMaskConfig}
use alfavibe_hack.Config.Effective.{
  add_component, add_components, add_type, add_types, build_effective, component_types,
  enable_address_components, start_effective,
}
use alfavibe_hack.Config.Policy.{
  Resolved, action_for, admits, demask_allowed, demask_of, merged_profile, resolve_policy, route_of,
}

module _ {S : Type 0} where
  demask-add_types :
      (ep : EffectivePolicy S) (ts : List (PdType × TypeMaskConfig))
      → (add_types ep ts).demask ≡ ep.demask
  unfolding add_types add_type
  demask-add_types ep [] = refl
  demask-add_types ep ((t, tm) ∷ ts) = ground (arith, demask-add_types (add_type ep t tm) ts)

  demask-add_components :
      (kind : MaskKind) (ep : EffectivePolicy S) (us : List PdType)
      → (add_components kind ep us).demask ≡ ep.demask
  unfolding add_components add_component
  demask-add_components kind ep [] = refl
  demask-add_components kind ep (u ∷ us) = demask-add_components kind (add_component kind ep u) us

  demask-enable : (ep : EffectivePolicy S) → (enable_address_components ep).demask ≡ ep.demask
  unfolding enable_address_components
  demask-enable ep = ground (
    arith,
    demask-add_components (get_or address MaskKind.placeholder ep.mask_kinds) ep component_types,
  )

  demask-build_effective :
      (cfg : CompiledConfig S) (p : ProfileConfig) (demask : Bool) (action : Text)
      → (build_effective cfg p demask action).demask ≡ demask
  unfolding build_effective start_effective
  demask-build_effective cfg p demask action =
      demask-enable (add_types (start_effective cfg p demask action) p.types)
      ∙ demask-add_types (start_effective cfg p demask action) p.types

  resolve_policy_allowed :
      (cfg : CompiledConfig S) (system_id : Text) (route_id : Option Text) (ep : EffectivePolicy S)
      → resolve_policy cfg system_id route_id ≡ Resolved.resolved ep
      → (get system_id cfg.system_enabled ≡ some true)
        × (admits (route_of cfg route_id) system_id ≡ true)
        × (ep.demask ≡ demask_allowed cfg system_id route_id)
  unfolding resolve_policy
  resolve_policy_allowed cfg system_id route_id ep h =
      let kept =
        demask-build_effective cfg (merged_profile cfg system_id route_id)
          (demask_allowed cfg system_id route_id) (action_for cfg (route_of cfg route_id)) in
      elim (Option-cases (get system_id cfg.system_enabled)) [
        | inl unknown ↦ absurd (ground arith)
        | inr (true, known) ↦ elim (Bool-cases (admits (route_of cfg route_id) system_id)) [
          | inr no_ ↦ absurd (ground arith)
          | inl admitted ↦
              let same : build_effective cfg (merged_profile cfg system_id route_id)
                    (demask_allowed cfg system_id route_id) (action_for cfg (route_of cfg route_id))
                  ≡ ep =
                ground arith in
              (known, admitted, rw (← same) kept)
        ]
        | inr (false, known) ↦ absurd (ground arith)
      ]

  -- A policy that allows demasking is given only to a system that is known and enabled, on a route
  -- that admits it, where the settings of the system allow demasking and, if the route is known,
  -- those of its answers do.
  pub resolve_policy-demask :
      (cfg : CompiledConfig S) (system_id : Text) (route_id : Option Text) (ep : EffectivePolicy S)
      → resolve_policy cfg system_id route_id ≡ Resolved.resolved ep
      → ep.demask ≡ true
      → (get system_id cfg.system_enabled ≡ some true)
        × (admits (route_of cfg route_id) system_id ≡ true)
        × (get system_id cfg.system_demask ≡ some true)
        × (demask_of (route_of cfg route_id) ≡ true)
  unfolding demask_allowed
  resolve_policy-demask cfg system_id route_id ep h wants =
      let (known, admitted, same) = resolve_policy_allowed cfg system_id route_id ep h in
      elim (Option-cases (get system_id cfg.system_demask)) [
        | inl silent ↦ absurd (ground arith)
        | inr (allowed, said) ↦ (known, admitted, ground arith, ground arith)
      ]
