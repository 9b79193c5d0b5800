-- ===== src/Config/Types.antt =====
-- Which types the policies of src/config/loader.rs mask.
use alfavibe_hack.Prelude.{
  ◌≡◌, refl, ◌∙◌, subst, Bool, true, false, not, ◌||◌, ◌&&◌, List, [], ◌∷◌, ◌++◌, Text, text_Eq,
  ◌==◌, ==_iff, arith, any, Bool-cases, inl, inr, utf8,
}
use alfavibe_hack.Prelude.Maps.{get_or}
use alfavibe_hack.Combination.{holds}
use alfavibe_hack.Domain.PdType.{PdType, address}
use alfavibe_hack.Domain.Policy.{AddressMode, EffectivePolicy, MaskKind}
use alfavibe_hack.Config.Profile.{CompiledConfig, ProfileConfig, TypeMaskConfig, is_disabled}
use alfavibe_hack.Config.Effective.{
  add_component, add_components, add_type, add_types, build_effective, component_types,
  enable_address_components, says, start_effective,
}

-- The profile has the type, and does not disable it.
abbrev pub enabled_in : List (PdType × TypeMaskConfig) → PdType → Bool
enabled_in ts t = any (λ e. (e.0 == t) && not (is_disabled e.1)) ts

-- An enabled type of the profile asks for the components of addresses.
abbrev pub wants_components : List (PdType × TypeMaskConfig) → Bool
wants_components ts = any (λ e. not (is_disabled e.1) && says (utf8 "components") e.1.mode) ts

holds-append : (ts : List PdType) (u t : PdType) → holds (ts ++ u ∷ []) t ≡ (holds ts t || (u == t))
unfolding holds
holds-append [] u t = ground arith
holds-append (s ∷ ts) u t = ground (arith, holds-append ts u t)

abbrev is_components : AddressMode → Bool
is_components AddressMode.whole = false
is_components AddressMode.components = true

module _ {S : Type 0} where
  add_type-holds :
      (ep : EffectivePolicy S) (u t : PdType) (tm : TypeMaskConfig)
      → holds (add_type ep u tm).types t ≡ (holds ep.types t || ((u == t) && not (is_disabled tm)))
  unfolding add_type
  add_type-holds ep u t tm = ground (arith, holds-append ep.types u t)

  add_types-holds :
      (ep : EffectivePolicy S) (ts : List (PdType × TypeMaskConfig)) (t : PdType)
      → holds (add_types ep ts).types t ≡ (holds ep.types t || enabled_in ts t)
  unfolding add_types
  add_types-holds ep [] t = ground arith
  add_types-holds ep ((u, tm) ∷ ts) t =
      ground (arith, add_types-holds (add_type ep u tm) ts t, add_type-holds ep u t tm)

  add_types-components :
      (ep : EffectivePolicy S) (ts : List (PdType × TypeMaskConfig))
      → is_components (add_types ep ts).address_mode
        ≡ (is_components ep.address_mode || wants_components ts)
  unfolding add_types add_type
  add_types-components ep [] = ground arith
  add_types-components ep ((u, tm) ∷ ts) =
      ground (arith, add_types-components (add_type ep u tm) ts)

  add_component-holds :
      (kind : MaskKind) (ep : EffectivePolicy S) (u t : PdType)
      → holds (add_component kind ep u).types t ≡ (holds ep.types t || (u == t))
  unfolding add_component
  add_component-holds kind ep u t = elim (Bool-cases (holds ep.types u)) [
    | inr new ↦ rw new (holds-append ep.types u t)
    | inl old ↦ elim (Bool-cases (u == t)) [
      | inr other ↦ rw (old, other) (ground arith)
      | inl same ↦
          let there : holds ep.types t ≡ true =
            subst (λ x. holds ep.types x ≡ true) ((==_iff u t).0 same) old in
          rw (old, same, there) refl
    ]
  ]

  add_components-holds :
      (kind : MaskKind) (ep : EffectivePolicy S) (us : List PdType) (t : PdType)
      → holds (add_components kind ep us).types t ≡ (holds ep.types t || any (λ u. u == t) us)
  unfolding add_components
  add_components-holds kind ep [] t = ground arith
  add_components-holds kind ep (u ∷ us) t = ground (
    arith,
    add_components-holds kind (add_component kind ep u) us t,
    add_component-holds kind ep u t,
  )

  enable-holds :
      (ep : EffectivePolicy S) (t : PdType)
      → holds (enable_address_components ep).types t ≡ (
          holds ep.types t
          || (is_components ep.address_mode
              && holds ep.types address
              && any (λ u. u == t) component_types))
  unfolding enable_address_components
  enable-holds ep t = ground (
    arith,
    add_components-holds (get_or address MaskKind.placeholder ep.mask_kinds) ep component_types t,
  )

  -- The policy that is built from a profile masks just the types that the profile has and does not
  -- disable, and, if an enabled type asks for components and ADDRESS is enabled, the seven components
  -- of an address.
  pub build_effective-types :
      (cfg : CompiledConfig S) (p : ProfileConfig) (demask : Bool) (action : Text) (t : PdType)
      → holds (build_effective cfg p demask action).types t ≡ (
          enabled_in p.types t
          || (wants_components p.types
              && enabled_in p.types address
              && any (λ u. u == t) component_types))
  unfolding build_effective start_effective holds
  build_effective-types cfg p demask action t =
      enable-holds (add_types (start_effective cfg p demask action) p.types) t
      ∙ rw
          (
            add_types-holds (start_effective cfg p demask action) p.types t,
            add_types-holds (start_effective cfg p demask action) p.types address,
            add_types-components (start_effective cfg p demask action) p.types,
          )
          refl
