-- ===== src/Resolve.antt =====
-- src/service/resolve.rs: which of the overlapping candidates become entities.
pub mod Sorting
pub mod Separation
pub mod Selection
use alfavibe_hack.Prelude.{
  ℕ, ℤ, pos, Bool, true, false, not, ◌&&◌, List, [], ◌∷◌, ◌++◌, Option, none, some, map, reverse,
  Text, text_Eq, filter, any, ltb, ltb_ℤ, eqb_ℤ, if◌then◌else◌, ◌==◌,
}
use alfavibe_hack.Prelude.Maps.{get_or}
use alfavibe_hack.Domain.PdType.{PdType, address}
use alfavibe_hack.Domain.Span.{overlaps, len}
use alfavibe_hack.Domain.Float32.{Float32}
use alfavibe_hack.Domain.Candidate
use alfavibe_hack.Domain.Candidate.{Candidate, Candidates, candidate}
use alfavibe_hack.Domain.Entity
use alfavibe_hack.Domain.Entity.{Entity, Entities, entity}
use alfavibe_hack.Domain.Policy.{EffectivePolicy}
use Sorting.{sort_by}

-- `xor` of two tests
abbrev differs : Bool → Bool → Bool
differs true b = not b
differs false b = b

-- `to_entity` with `canonicalize`, which is empty: the pipeline fills the canonical form in.
unfoldable mutual
  pub to_entity : {S : Type 0} → Candidate S → Entity S
  to_entity (candidate t s x src cs f) = entity t s x src (to_entities cs) []

  pub to_entities : {S : Type 0} → Candidates S → Entities S
  to_entities Candidates.nil = Entities.nil
  to_entities (Candidates.cons c cs) = Entities.cons (to_entity c) (to_entities cs)

module _ (F : Float32) (policy : EffectivePolicy F.Carrier) where
  open F use {Carrier, of_millis, ge, gt, differ}

  abbrev start : Candidate Carrier → ℕ
  start c = (Candidate.span c).start

  -- The candidate reaches the threshold of its type.
  unfoldable pub passes : Candidate Carrier → Bool
  passes c = ge (Candidate.score c) (get_or (Candidate.pd_type c) (of_millis 600) policy.thresholds)

  -- Whether `a` wins against `b`: by checksum, priority, score, then length.
  unfoldable pub a_wins : Candidate Carrier → Candidate Carrier → Bool
  a_wins a b =
      let a_checksum = (Candidate.signals a).checksum_ok in
      let b_checksum = (Candidate.signals b).checksum_ok in
      let a_prio = get_or (Candidate.pd_type a) (pos 50) policy.priorities in
      let b_prio = get_or (Candidate.pd_type b) (pos 50) policy.priorities in
      if differs a_checksum b_checksum
      then a_checksum
      else if not (eqb_ℤ a_prio b_prio)
      then ltb_ℤ b_prio a_prio
      else if differ (Candidate.score a) (Candidate.score b)
      then gt (Candidate.score a) (Candidate.score b)
      else ltb (len (Candidate.span b)) (len (Candidate.span a))

  -- A whole address absorbs what holds a component that overlaps it.
  unfoldable pub absorbs : Candidate Carrier → Candidate Carrier → Bool
  absorbs last cand =
      (Candidate.pd_type last == address)
      && any (λ c. overlaps (Candidate.span c) (Candidate.span last)) (Candidate.components cand)

  -- One round of the sweep; the last selected candidate is the head.
  unfoldable pub select : List (Candidate Carrier) → Candidate Carrier → List (Candidate Carrier)
  select [] cand = cand ∷ []
  select (last ∷ before) cand =
      if overlaps (Candidate.span last) (Candidate.span cand)
      then (if absorbs last cand
          then last ∷ before
          else if a_wins cand last
          then cand ∷ before
          else last ∷ before)
      else cand ∷ last ∷ before

  unfoldable pub sweep :
      List (Candidate Carrier) → List (Candidate Carrier) → List (Candidate Carrier)
  sweep selected [] = selected
  sweep selected (cand ∷ cands) = sweep (select selected cand) cands

  -- `DefaultResolver::resolve`
  unfoldable pub resolve : List (Candidate Carrier) → List (Entity Carrier)
  resolve cands = map to_entity (reverse (sweep [] (sort_by start (filter passes cands))))
