-- ===== src/Config/Resolver.antt =====
-- src/service/policy_resolver.rs, and the policies that `compile` of src/config/loader.rs makes
-- beforehand.
use alfavibe_hack.Prelude.{
  ◌≡◌, refl, sym, ap, ◌∙◌, Bool, List, [], ◌∷◌, Option, none, some, Text, text_Eq, arith, ◌==◌,
  ==_iff, Bool-cases, Option-cases, inl, inr, pair_Eq, option_Eq,
}
use alfavibe_hack.Prelude.Maps.{get, insert, get-insert}
use alfavibe_hack.Domain.Policy.{EffectivePolicy}
use alfavibe_hack.Config.Profile.{CompiledConfig, RouteConfig}
use alfavibe_hack.Config.Effective.{build_effective, start_effective}
use alfavibe_hack.Config.Policy.{
  Resolved, base_profile, demask_allowed, merged_profile, resolve_policy, route_of,
}

abbrev Policies : Type 0 → Type 0
Policies S = List ((Text × Option Text) × EffectivePolicy S)

abbrev keep_policy : {S : Type 0} → Text × Option Text → Resolved S → Policies S → Policies S
keep_policy k (Resolved.resolved p) m = insert k p m
keep_policy k (Resolved.refused e) m = m

module _ {S : Type 0} (cfg : CompiledConfig S) where
  -- The policy of the table, or one that is made now.
  unfoldable pub resolve : Text → Option Text → Resolved S
  resolve system_id route_id = elim (get (system_id, route_id) cfg.policies) [
    | some p ↦ Resolved.resolved p
    | none ↦ resolve_policy cfg system_id route_id
  ]

  unfoldable pub route_policies : Text → List RouteConfig → Policies S → Policies S
  route_policies system_id [] m = m
  route_policies system_id (r ∷ rs) m =
      route_policies system_id rs
        (keep_policy (system_id, some r.id) (resolve_policy cfg system_id (some r.id)) m)

  unfoldable pub system_policies : List (Text × Bool) → Policies S → Policies S
  system_policies [] m = m
  system_policies ((system_id, _) ∷ rest) m = system_policies rest (
      route_policies system_id cfg.routes
        (keep_policy (system_id, none) (resolve_policy cfg system_id none) m))

  unfoldable pub compiled : CompiledConfig S
  compiled = record cfg { policies = system_policies cfg.system_enabled [] }

  -- A table in which every policy is the one of its key.
  abbrev Right : Policies S → Type 0
  Right m =
      (k : Text × Option Text) (p : EffectivePolicy S)
      → get k m ≡ some p
      → resolve_policy cfg k.0 k.1 ≡ Resolved.resolved p

  nil-Right : Right []
  unfolding get
  nil-Right k p h = cc

  keep_policy-Right :
      (k : Text × Option Text) (r : Resolved S) (m : Policies S)
      → resolve_policy cfg k.0 k.1 ≡ r
      → Right m
      → Right (keep_policy k r m)
  keep_policy-Right k (Resolved.refused e) m is right = λ j q h. right j q h
  keep_policy-Right k (Resolved.resolved p) m is right = λ j q h. elim (Bool-cases (k == j)) [
    | inl same ↦
        let found : p ≡ q = ground (arith, get-insert k j p m) in
        rw (← (==_iff k j).0 same, ← found) is
    | inr other ↦ right j q (ground (arith, get-insert k j p m))
  ]

  route_policies-Right :
      (system_id : Text) (rs : List RouteConfig) (m : Policies S)
      → Right m
      → Right (route_policies system_id rs m)
  unfolding route_policies
  route_policies-Right system_id [] m right = right
  route_policies-Right system_id (r ∷ rs) m right = route_policies-Right system_id rs _ (
      keep_policy-Right (system_id, some r.id) (resolve_policy cfg system_id (some r.id)) m refl
        right)

  system_policies-Right :
      (ss : List (Text × Bool)) (m : Policies S) → Right m → Right (system_policies ss m)
  unfolding system_policies
  system_policies-Right [] m right = right
  system_policies-Right ((system_id, _) ∷ rest) m right = system_policies-Right rest _ (
      route_policies-Right system_id cfg.routes _
        (keep_policy-Right (system_id, none) (resolve_policy cfg system_id none) m refl right))

module _ {S : Type 0} (cfg : CompiledConfig S) (system_id : Text) (route_id : Option Text) where
  resolve_miss :
      get (system_id, route_id) cfg.policies ≡ none
      → resolve cfg system_id route_id ≡ resolve_policy cfg system_id route_id
  unfolding resolve
  resolve_miss missing = ground arith

  resolve_hit :
      (p : EffectivePolicy S)
      → get (system_id, route_id) cfg.policies ≡ some p
      → resolve cfg system_id route_id ≡ Resolved.resolved p
  unfolding resolve
  resolve_hit p found = ground arith

  resolve_policy-compiled :
      resolve_policy (compiled cfg) system_id route_id ≡ resolve_policy cfg system_id route_id
  unfolding compiled resolve_policy route_of merged_profile demask_allowed base_profile
      build_effective start_effective
  resolve_policy-compiled = refl

  policies-compiled : (compiled cfg).policies ≡ system_policies cfg cfg.system_enabled []
  unfolding compiled
  policies-compiled = refl

-- The table of policies that is made when a configuration is compiled changes no answer: for every
-- system and route, `resolve` gives what `resolve_policy` would.
pub resolve-compiled :
    {S : Type 0} (cfg : CompiledConfig S) (system_id : Text) (route_id : Option Text)
    → resolve (compiled cfg) system_id route_id ≡ resolve_policy cfg system_id route_id
resolve-compiled cfg system_id route_id =
    let at = ap (get (system_id, route_id)) (policies-compiled cfg system_id route_id) in
    elim (Option-cases (get (system_id, route_id) (system_policies cfg cfg.system_enabled []))) [
      | inl missing ↦
          resolve_miss (compiled cfg) system_id route_id (at ∙ missing)
          ∙ resolve_policy-compiled cfg system_id route_id
      | inr (p, found) ↦
          resolve_hit (compiled cfg) system_id route_id p (at ∙ found)
          ∙ sym (
              system_policies-Right cfg cfg.system_enabled [] (nil-Right cfg) (system_id, route_id)
                p found)
    ]
