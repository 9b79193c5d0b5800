-- ===== src/Pipeline/Guarantees.antt =====
-- What `mask_line` of src/service/pipeline.rs promises for every set of detectors and models.
use alfavibe_hack.Prelude.{
  length, ℕ, true, false, ◌≡◌, refl, List, [], ◌∷◌, some, Text, text_Eq, All, Option-cases,
  Bool-cases, inl, inr, arith, filter, subst, ltb, slice?,
}
use alfavibe_hack.Domain.PdType.{PdType}
use alfavibe_hack.Domain.Document
use alfavibe_hack.Domain.Document.{Document, original_slice}
use alfavibe_hack.Domain.Entity
use alfavibe_hack.Domain.Entity.{Entity, entity, with_canonical}
use alfavibe_hack.Domain.Float32.{Float32}
use alfavibe_hack.Domain.MaskState.{MaskState}
use alfavibe_hack.Domain.Policy.{EffectivePolicy}
use alfavibe_hack.Domain.Unicode.{Unicode}
use alfavibe_hack.Domain.Candidate.{Candidate}
use alfavibe_hack.Resolve.{resolve}
use alfavibe_hack.Resolve.Sorting.{sort_by, sort_by-All}
use alfavibe_hack.Combination.Distinct.{holds_kept}
use alfavibe_hack.Combination.{apply, holds}
use alfavibe_hack.Pipeline.Masking.{Masked, Maskers, Piece, assemble, masked_end, mask_pass}
use alfavibe_hack.Pipeline.Records.{Keyed, mask_pass-Keyed}
use alfavibe_hack.Pipeline.Restore.{restore, restore-mask_pass, mask_pass-Step}
use alfavibe_hack.Pipeline.Line.{
  Clock, MaskLineResult, PipelineCtx, apply_filters, canonicalize, canonical_from_original,
  entities_of, expand, gather, mask_line,
}
use alfavibe_hack.Pipeline.Signal.{has_pd_signal}

module _ {S : Type 0} (P : PdType → Type 0) where
  abbrev pub OfType : Entity S → Type 0
  OfType e = P (Entity.pd_type e)

  canonicalize-All :
      (u : Unicode) (doc : Document) (es : List (Entity S)) (fs : List (Entity S))
      → All OfType es
      → canonicalize u doc es ≡ some fs
      → All OfType fs
  unfolding canonicalize
  canonicalize-All u doc [] fs h e =
      let none_ : [] ≡ fs = ground arith in subst (All OfType) none_ tt
  canonicalize-All u doc (entity t s x d cs c ∷ es) fs (p, h) e =
      elim (Option-cases (original_slice doc s)) [
        | inl failed ↦ absurd (ground arith)
        | inr (orig, sliced) ↦ elim (Option-cases (canonicalize u doc es)) [
          | inl failed ↦ absurd (ground arith)
          | inr (gs, made) ↦
              let joined : (entity t s x d cs (canonical_from_original u orig t) ∷ gs) ≡ fs =
                ground arith in
              subst (All OfType) joined (p, canonicalize-All u doc es gs h made)
        ]
      ]

  types-assemble :
      (e : Entity S) (base : ℕ) (p : Piece S) (rest : Masked S)
      → p.of ≡ e
      → OfType e
      → All (λ i. P i.pd_type) rest.infos
      → All (λ i. P i.pd_type) (assemble base p rest).infos
  unfolding assemble
  types-assemble e base p rest same q h = (rw same q, h)

  module _ (maskers : Maskers S) (policy : EffectivePolicy S) (original : Text) where
    types-tail :
        (cursor base : ℕ) (state : MaskState) (m : Masked S)
        → mask_pass maskers policy original [] cursor base state ≡ some m
        → m.infos ≡ []
    unfolding mask_pass slice?
    types-tail cursor base state m h = ground arith

    pub mask_pass-All :
        (es : List (Entity S)) (cursor base : ℕ) (state : MaskState) (m : Masked S)
        → All OfType es
        → mask_pass maskers policy original es cursor base state ≡ some m
        → All (λ i. P i.pd_type) m.infos
    unfolding mask_pass
    mask_pass-All [] cursor base state m h e = rw (types-tail cursor base state m e) tt
    mask_pass-All (x ∷ es) cursor base state m (q, h) e =
        elim (Bool-cases (ltb (Entity.span x).start cursor)) [
          | inl skip ↦ mask_pass-All es cursor base state m h (rw (skip, mask_pass) at e)
          | inr take_ ↦
              let s = mask_pass-Step maskers policy original x es cursor base state m take_ e in
              subst (λ n. All (λ i. P i.pd_type) n.infos) s.joined
                (types-assemble x base s.piece s.rest s.replaced.same q (
                  mask_pass-All es (Entity.span x).end (masked_end base s.piece) s.piece.state
                    s.rest h s.passed))
        ]

module _ (F : Float32) (u : Unicode) (ctx : PipelineCtx F.Carrier)
    (policy : EffectivePolicy F.Carrier) where
  abbrev Wanted : PdType → Type 0
  Wanted t = holds policy.types t ≡ true

  entities_of-All :
      (doc : Document) (cands : List (Candidate F.Carrier)) (es : List (Entity F.Carrier))
      → entities_of F u ctx policy doc cands ≡ some es
      → All (OfType Wanted) es
  unfolding entities_of
  entities_of-All doc cands es h =
      let kept =
        filter (λ e. holds policy.types (Entity.pd_type e))
          (expand policy (apply policy (resolve F policy (apply_filters ctx policy doc cands)))) in
      elim (Option-cases (canonicalize u doc kept)) [
        | inl failed ↦ absurd (ground arith)
        | inr (fs, made) ↦
            let sorted : sort_by (λ e. (Entity.span e).start) fs ≡ es = ground arith in
            subst (All (OfType Wanted)) sorted (
              sort_by-All (λ e. (Entity.span e).start) (OfType Wanted) fs
                (canonicalize-All Wanted u doc kept fs (holds_kept policy.types _) made))
      ]

  -- A run of `mask_line` past the gate, by its masking pass.
  record Passed (clock : Clock) (original : Text) (state : MaskState) (r : MaskLineResult F.Carrier)
      : Type 0 where
    es : List (Entity F.Carrier)
    masked : Masked F.Carrier
    wanted : All (OfType Wanted) es
    passed : mask_pass ctx.maskers policy original es 0 0 state ≡ some masked
    text : r.text ≡ masked.text
    infos : r.entities ≡ masked.infos
    records : r.records ≡ masked.records

  mask_line-Passed :
      (clock : Clock) (original : Text) (state state' : MaskState) (r : MaskLineResult F.Carrier)
      → has_pd_signal u original ≡ true
      → mask_line F u ctx policy clock original state ≡ some (r, state')
      → Passed clock original state r
  unfolding mask_line
  mask_line-Passed clock original state state' r signal h =
      let doc = Document.new u.fold original in
      elim (Option-cases (gather F u ctx policy clock doc)) [
        | inl failed ↦ absurd (ground arith)
        | inr (found, gathered) ↦
            elim (Option-cases (entities_of F u ctx policy doc found.candidates)) [
              | inl failed ↦ absurd (ground arith)
              | inr (es, made) ↦
                  elim (Option-cases (mask_pass ctx.maskers policy original es 0 0 state)) [
                    | inl failed ↦ absurd (ground arith)
                    | inr (m, passed) ↦ record {
                      es = es;
                      masked = m;
                      wanted = entities_of-All doc found.candidates es made;
                      passed = passed;
                      text = ground arith;
                      infos = ground arith;
                      records = ground arith;
                    }
                  ]
            ]
      ]

  mask_line-quiet :
      (clock : Clock) (original : Text) (state state' : MaskState) (r : MaskLineResult F.Carrier)
      → has_pd_signal u original ≡ false
      → mask_line F u ctx policy clock original state ≡ some (r, state')
      → (r.text ≡ original) × (r.entities ≡ []) × (r.records ≡ [])
  unfolding mask_line
  mask_line-quiet clock original state state' r signal h =
      (ground arith, ground arith, ground arith)

  -- Whatever the detectors, the model of names, the filters and the maskers answer: if `mask_line`
  -- returns, the original text can be had back from its result by exchanging each replacement for the
  -- range of the original that its entity names.
  pub restore-mask_line :
      (clock : Clock) (original : Text) (state state' : MaskState) (r : MaskLineResult F.Carrier)
      → mask_line F u ctx policy clock original state ≡ some (r, state')
      → restore original r.entities 0 r.text ≡ original
  unfolding restore
  restore-mask_line clock original state state' r h = elim (Bool-cases (has_pd_signal u original)) [
    | inl signal ↦
        let p = mask_line-Passed clock original state state' r signal h in
        rw (p.text, p.infos)
          (restore-mask_pass ctx.maskers policy original p.es state p.masked p.passed)
    | inr quiet ↦
        let (same, none_, _) = mask_line-quiet clock original state state' r quiet h in
        rw (none_, same) refl
  ]

  -- If `mask_line` returns, every entity that it masked has a type of the profile, whatever types the
  -- detectors, the model of names and the components of addresses bring.
  pub mask_line-types :
      (clock : Clock) (original : Text) (state state' : MaskState) (r : MaskLineResult F.Carrier)
      → mask_line F u ctx policy clock original state ≡ some (r, state')
      → All (λ i. holds policy.types i.pd_type ≡ true) r.entities
  mask_line-types clock original state state' r h = elim (Bool-cases (has_pd_signal u original)) [
    | inl signal ↦
        let p = mask_line-Passed clock original state state' r signal h in
        rw p.infos (
          mask_pass-All Wanted ctx.maskers policy original p.es 0 0 state p.masked p.wanted
            p.passed)
    | inr quiet ↦ rw (mask_line-quiet clock original state state' r quiet h).1 tt
  ]

  -- When `mask_line` returns as many records as replacements, each replacement has its record, with
  -- the range of the original that it replaced.
  pub mask_line-Keyed :
      (clock : Clock) (original : Text) (state state' : MaskState) (r : MaskLineResult F.Carrier)
      → mask_line F u ctx policy clock original state ≡ some (r, state')
      → length r.records ≡ length r.entities
      → Keyed r.entities r.records
  mask_line-Keyed clock original state state' r h even =
      elim (Bool-cases (has_pd_signal u original)) [
        | inl signal ↦
            let p = mask_line-Passed clock original state state' r signal h in
            rw (p.records, p.infos)
              (mask_pass-Keyed ctx.maskers policy original p.es 0 0 state p.masked p.passed
                (rw (p.records, p.infos) at even))
        | inr quiet ↦
            let (_, none_, unnoted) = mask_line-quiet clock original state state' r quiet h in
            rw (none_, unnoted) Keyed.done
      ]
