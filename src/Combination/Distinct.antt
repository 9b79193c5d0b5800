-- ===== src/Combination/Distinct.antt =====
-- The least number of types in src/service/combination.rs.
use alfavibe_hack.Prelude.{
  suc, ◌≤◌, ◌<◌, ◌≡◌, refl, sym, ap, subst, true, false, List, [], ◌∷◌, text_Eq, if◌then◌else◌,
  ◌==◌, ==_iff, All, arith, Bool-cases, inl, inr, length, map, filter, ltb,
}
use alfavibe_hack.Domain.PdType.{PdType}
use alfavibe_hack.Domain.Entity
use alfavibe_hack.Domain.Entity.{Entity}
use alfavibe_hack.Domain.Policy.{EffectivePolicy}
use alfavibe_hack.Combination.{apply, distinct, holds}

-- The list without the first occurrence of a type.
unfoldable without : PdType → List PdType → List PdType
without t [] = []
without t (u ∷ us) = let rest = u ∷ without t us in if u == t then us else rest

length-without :
    (t : PdType) (us : List PdType) → holds us t ≡ true → suc (length (without t us)) ≡ length us
unfolding holds without
length-without t [] h = cc
length-without t (u ∷ us) h = elim (Bool-cases (u == t)) [
  | inl same ↦ rw same refl
  | inr other ↦ rw other (ap suc (length-without t us (rw other at h)))
]

holds-without :
    (t v : PdType) (us : List PdType)
    → holds us v ≡ true
    → (t == v) ≡ false
    → holds (without t us) v ≡ true
unfolding holds without
holds-without t v [] h differ = cc
holds-without t v (u ∷ us) h differ = elim (Bool-cases (u == t)) [
  | inl same ↦
      let other : (u == v) ≡ false =
        subst (λ x. (x == v) ≡ false) (sym ((==_iff u t).0 same)) differ in
      rw same (rw other at h)
  | inr other ↦ rw other (ground (arith, holds-without t v us))
]

-- A type that does not come again.
abbrev Fresh : PdType → List PdType → Type 0
Fresh t ts = All (λ u. (t == u) ≡ false) ts

holds-Fresh : (t : PdType) (ts : List PdType) → holds ts t ≡ false → Fresh t ts
unfolding holds
holds-Fresh t [] h = tt
holds-Fresh t (u ∷ us) h = (ground (arith, ==_iff u t, ==_iff t u), holds-Fresh t us (ground arith))

module _ (P : PdType → Type 0) where
  distinct-All : (ts : List PdType) → All P ts → All P (distinct ts)
  unfolding distinct
  distinct-All [] h = tt
  distinct-All (t ∷ ts) (p, h) = elim (Bool-cases (holds ts t)) [
    | inl again ↦ rw again (distinct-All ts h)
    | inr new ↦ rw new (p, distinct-All ts h)
  ]

All-without :
    (t : PdType) (ts us : List PdType)
    → All (λ u. holds us u ≡ true) ts
    → Fresh t ts
    → All (λ u. holds (without t us) u ≡ true) ts
All-without t [] us h f = tt
All-without t (v ∷ ts) us (p, h) (q, f) = (holds-without t v us p q, All-without t ts us h f)

length-distinct :
    (ts us : List PdType) → All (λ u. holds us u ≡ true) ts → length (distinct ts) ≤ length us
unfolding distinct
length-distinct [] us h = omega arith
length-distinct (t ∷ ts) us (p, h) = elim (Bool-cases (holds ts t)) [
  | inl again ↦ rw again (length-distinct ts us h)
  | inr new ↦ rw new (
      omega (
        arith,
        length-without t us p,
        length-distinct ts (without t us) (All-without t ts us h (holds-Fresh t ts new)),
      ))
]

pub holds_kept :
    {S : Type 0} (ts : List PdType) (es : List (Entity S))
    → All (λ e. holds ts (Entity.pd_type e) ≡ true) (filter (λ e. holds ts (Entity.pd_type e)) es)
holds_kept ts [] = tt
holds_kept ts (e ∷ es) = elim (Bool-cases (holds ts (Entity.pd_type e))) [
  | inl in_ ↦ rw in_ (in_, holds_kept ts es)
  | inr out ↦ rw out (holds_kept ts es)
]

-- If all entities are of types out of a list that is shorter than the least number of distinct types,
-- the rules keep only entities of a type that is always masked.
pub apply-few :
    {S : Type 0} (policy : EffectivePolicy S) (us : List PdType) (es : List (Entity S))
    → length us < policy.combination.min_distinct_types
    → All (λ t. holds us t ≡ true) (map Entity.pd_type es)
    → All (λ e. holds policy.combination.always_mask (Entity.pd_type e) ≡ true) (apply policy es)
unfolding apply
apply-few policy us es few listed =
    let least = policy.combination.min_distinct_types in
    let some_ : ltb 0 least ≡ true = ground arith in
    let short : ltb (length (distinct (map Entity.pd_type es))) least ≡ true =
      ground (arith, length-distinct (map Entity.pd_type es) us listed) in
    rw (some_, short) (holds_kept policy.combination.always_mask es)
