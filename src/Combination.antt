-- ===== src/Combination.antt =====
-- src/service/combination.rs: entities that count only beside others.
pub mod Distinct
use alfavibe_hack.Prelude.{
  ℕ, ◌-◌, Bool, true, false, ◌&&◌, ◌||◌, List, [], ◌∷◌, none, some, map, text_Eq, filter, any, all,
  ltb, leb, if◌then◌else◌, length, ◌==◌,
}
use alfavibe_hack.Prelude.Maps.{get}
use alfavibe_hack.Domain.PdType.{PdType}
use alfavibe_hack.Domain.Entity
use alfavibe_hack.Domain.Entity.{Entity}
use alfavibe_hack.Domain.Policy.{CombinationRuleConfig, CombinationScope, EffectivePolicy}

unfoldable pub holds : List PdType → PdType → Bool
holds ts t = any (λ u. u == t) ts

-- The set of the types, for its size.
unfoldable pub distinct : List PdType → List PdType
unfolding holds
distinct [] = []
distinct (t ∷ ts) = let later = distinct ts in if holds ts t then later else t ∷ later

abbrev is_empty : List PdType → Bool
is_empty [] = true
is_empty (_ ∷ _) = false

-- `abs_diff`
abbrev abs_diff : ℕ → ℕ → ℕ
abs_diff a b = if ltb a b then b - a else a - b

-- `satisfied`: `seen` says which types the scope of the rule holds.
unfoldable pub satisfied : (PdType → Bool) → CombinationRuleConfig → Bool
satisfied seen rule =
    (is_empty rule.requires_any || any seen rule.requires_any) && all seen rule.requires_all

module _ {S : Type 0} where
  unfoldable pub window_overlap : Entity S → Entity S → ℕ → Bool
  window_overlap a b window_chars =
      leb (abs_diff (Entity.span a).start (Entity.span b).start) window_chars

  -- Whether an entity of the type stands near, for the scope of a window.
  unfoldable pub near : List (Entity S) → Entity S → ℕ → PdType → Bool
  unfolding window_overlap
  near snapshot e window_chars t =
      any (λ other. Entity.pd_type other == t && window_overlap e other window_chars) snapshot

  abbrev scope_of : List (Entity S) → Entity S → CombinationRuleConfig → PdType → Bool
  scope_of snapshot e rule t = elim rule.scope [
    | CombinationScope.document ↦ holds (map Entity.pd_type snapshot) t
    | CombinationScope.window ↦ near snapshot e rule.window_chars t
  ]

  unfoldable pub keeps : EffectivePolicy S → List (Entity S) → Entity S → Bool
  keeps policy snapshot e = elim (get (Entity.pd_type e) policy.combination.rules) [
    | none ↦ true
    | some rule ↦ satisfied (scope_of snapshot e rule) rule
  ]

  -- `apply`
  unfoldable pub apply : EffectivePolicy S → List (Entity S) → List (Entity S)
  apply policy entities =
      let least = policy.combination.min_distinct_types in
      if ltb 0 least && ltb (length (distinct (map Entity.pd_type entities))) least
      then filter (λ e. holds policy.combination.always_mask (Entity.pd_type e)) entities
      else filter (keeps policy entities) entities
