-- ===== src/Pipeline/Records.antt =====
-- The records that the masking pass of src/service/pipeline.rs makes for the mapping.
use alfavibe_hack.Prelude.{
  subst, ℕ, ◌≤◌, ◌≡◌, refl, List, [], ◌∷◌, Option-cases, Bool-cases, inl, inr, some, Text, ltb,
  length, arith,
}
use alfavibe_hack.Domain.Entity
use alfavibe_hack.Domain.Entity.{Entity, MaskRecord}
use alfavibe_hack.Domain.MaskState.{MaskState}
use alfavibe_hack.Domain.Policy.{EffectivePolicy}
use alfavibe_hack.Pipeline.Masking.{
  Maskers, MaskedEntityInfo, Masked, Piece, assemble, mask_pass, masked_end,
}
use alfavibe_hack.Pipeline.Restore.{mask_pass-Step}

-- One record for each replacement, with the range of the original that it replaced.
pub data Keyed {S : Type 0} : List (MaskedEntityInfo S) → List MaskRecord → Type 0 where
  done : Keyed [] []
  next :
      {i : MaskedEntityInfo S} {is : List (MaskedEntityInfo S)} {r : MaskRecord}
      {rs : List MaskRecord}
      → r.original_span ≡ record { start = i.start; end = i.end }
      → Keyed is rs
      → Keyed (i ∷ is) (r ∷ rs)

module _ {S : Type 0} (maskers : Maskers S) (policy : EffectivePolicy S) (original : Text) where
  assemble-le :
      (base : ℕ) (p : Piece S) (rest : Masked S)
      → length rest.records ≤ length rest.infos
      → length (assemble base p rest).records ≤ length (assemble base p rest).infos
  unfolding assemble
  assemble-le base p rest le = elim (Option-cases p.out.key) [
    | inl keyless ↦ rw keyless (omega arith)
    | inr (key, keyed) ↦ rw keyed (omega arith)
  ]

  assemble-Keyed :
      (base : ℕ) (p : Piece S) (rest : Masked S)
      → length rest.records ≤ length rest.infos
      → (length rest.records ≡ length rest.infos → Keyed rest.infos rest.records)
      → length (assemble base p rest).records ≡ length (assemble base p rest).infos
      → Keyed (assemble base p rest).infos (assemble base p rest).records
  unfolding assemble
  assemble-Keyed base p rest le ih even = elim (Option-cases p.out.key) [
    | inl keyless ↦ absurd (omega (arith, le, rw keyless at even))
    | inr (key, keyed) ↦ rw keyed (next refl (ih (omega (arith, rw keyed at even))))
  ]

  records-tail :
      (cursor base : ℕ) (state : MaskState) (m : Masked S)
      → mask_pass maskers policy original [] cursor base state ≡ some m
      → (m.records ≡ []) × (m.infos ≡ [])
  unfolding mask_pass
  records-tail cursor base state m h = (ground arith, ground arith)

  mask_pass-le :
      (es : List (Entity S)) (cursor base : ℕ) (state : MaskState) (m : Masked S)
      → mask_pass maskers policy original es cursor base state ≡ some m
      → length m.records ≤ length m.infos
  unfolding mask_pass
  mask_pass-le [] cursor base state m h =
      let (no_records, no_infos) = records-tail cursor base state m h in
      rw (no_records, no_infos) (omega arith)
  mask_pass-le (e ∷ es) cursor base state m h =
      elim (Bool-cases (ltb (Entity.span e).start cursor)) [
        | inl skip ↦ mask_pass-le es cursor base state m (rw (skip, mask_pass) at h)
        | inr take_ ↦
            let s = mask_pass-Step maskers policy original e es cursor base state m take_ h in
            subst (λ (n : Masked S). length n.records ≤ length n.infos) s.joined
              (assemble-le base s.piece s.rest (
                mask_pass-le es (Entity.span e).end (masked_end base s.piece) s.piece.state s.rest
                  s.passed))
      ]

  -- When there are as many records as replacements, each replacement has its record.
  pub mask_pass-Keyed :
      (es : List (Entity S)) (cursor base : ℕ) (state : MaskState) (m : Masked S)
      → mask_pass maskers policy original es cursor base state ≡ some m
      → length m.records ≡ length m.infos
      → Keyed m.infos m.records
  unfolding mask_pass
  mask_pass-Keyed [] cursor base state m h even =
      let (no_records, no_infos) = records-tail cursor base state m h in
      rw (no_records, no_infos) done
  mask_pass-Keyed (e ∷ es) cursor base state m h even =
      elim (Bool-cases (ltb (Entity.span e).start cursor)) [
        | inl skip ↦ mask_pass-Keyed es cursor base state m (rw (skip, mask_pass) at h) even
        | inr take_ ↦
            let s = mask_pass-Step maskers policy original e es cursor base state m take_ h in
            subst (λ (n : Masked S). length n.records ≡ length n.infos → Keyed n.infos n.records)
              s.joined
              (assemble-Keyed base s.piece s.rest
                (mask_pass-le es (Entity.span e).end (masked_end base s.piece) s.piece.state s.rest
                  s.passed)
                (mask_pass-Keyed es (Entity.span e).end (masked_end base s.piece) s.piece.state
                  s.rest s.passed))
              even
      ]
