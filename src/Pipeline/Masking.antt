-- ===== src/Pipeline/Masking.antt =====
-- The pass of `mask_line` in src/service/pipeline.rs that replaces the entities, from left to right.
use alfavibe_hack.Prelude.{
  ◌>>=◌, ℕ, ◌+◌, List, [], ◌∷◌, ◌++◌, Option, none, some, Text, text_Eq, ltb, if◌then◌else◌, length,
  slice?,
}
use alfavibe_hack.Prelude.Maps.{get_or}
use alfavibe_hack.Domain.PdType.{PdType}
use alfavibe_hack.Domain.Span.{Span}
use alfavibe_hack.Domain.Candidate.{kind}
use alfavibe_hack.Domain.Entity
use alfavibe_hack.Domain.Entity.{Entity, MaskRecord}
use alfavibe_hack.Domain.MaskState.{MaskState}
use alfavibe_hack.Domain.Policy.{EffectivePolicy, MaskKind, MaskOutput}

-- A strategy: the output and the new numbers, or `none` for a panic.
abbrev pub Masker : Type 0 → Type 0
Masker S = Entity S → Text → MaskState → Option (MaskOutput × MaskState)

-- `maskers_by_kind` and `default_masker`
pub record Maskers (S : Type 0) : Type 0 where
  pub by_kind : MaskKind → Option (Masker S)
  pub default : Masker S

pub record MaskedEntityInfo (S : Type 0) : Type 0 where
  pub pd_type : PdType
  pub start : ℕ
  pub end : ℕ
  pub masked_start : ℕ
  pub masked_end : ℕ
  pub replacement : Text
  pub score : S
  pub source : Text

-- What the pass appends to the text, and what it notes.
pub record Masked (S : Type 0) : Type 0 where
  pub text : Text
  pub records : List MaskRecord
  pub infos : List (MaskedEntityInfo S)
  pub state : MaskState

-- One replaced entity, with the untouched text before it.
pub record Piece (S : Type 0) : Type 0 where
  pub of : Entity S
  pub gap : Text
  pub out : MaskOutput
  pub state : MaskState

-- A record is made of a replacement that has a key.
abbrev pub note : Option Text → Span → Span → PdType → List MaskRecord → List MaskRecord
note none masked original t rs = rs
note (some key) masked original t rs =
    record { masked_span = masked; original_span = original; pd_type = t; key = some key } ∷ rs

module _ {S : Type 0} where
  abbrev pub masked_start : ℕ → Piece S → ℕ
  masked_start base p = base + length p.gap

  abbrev pub masked_end : ℕ → Piece S → ℕ
  masked_end base p = masked_start base p + length p.out.replacement

  -- The text and the notes of a piece in front of the rest.
  unfoldable pub assemble : ℕ → Piece S → Masked S → Masked S
  assemble base p rest = record {
    text = p.gap ++ (p.out.replacement ++ rest.text);
    records =
        note p.out.key (record { start = masked_start base p; end = masked_end base p })
          (Entity.span p.of) (Entity.pd_type p.of) rest.records;
    infos =
        record {
          pd_type = Entity.pd_type p.of;
          start = (Entity.span p.of).start;
          end = (Entity.span p.of).end;
          masked_start = masked_start base p;
          masked_end = masked_end base p;
          replacement = p.out.replacement;
          score = Entity.score p.of;
          source = kind (Entity.source p.of);
        }
        ∷ rest.infos;
    state = rest.state;
  }

  module _ (maskers : Maskers S) (policy : EffectivePolicy S) (original : Text) where
    -- The strategy that the profile gives the type, a placeholder if it gives none.
    unfoldable pub masker_for : Entity S → Masker S
    masker_for e =
        elim (maskers.by_kind (get_or (Entity.pd_type e) MaskKind.placeholder policy.mask_kinds)) [
          | none ↦ maskers.default
          | some m ↦ m
        ]

    -- The replacement of one entity, and the copy of the original between `cursor` and it.
    unfoldable pub replace_one : Entity S → ℕ → MaskState → Option (Piece S)
    replace_one e cursor state = do
      orig ← slice? (Entity.span e).start (Entity.span e).end original
      (out, state') ← masker_for e e orig state
      gap ← slice? cursor (Entity.span e).start original
      some (record { of = e; gap = gap; out = out; state = state' })

    -- The loop: the original is copied up to `cursor`, into `base` bytes of text. The source appends
    -- to the text; here a call returns what is appended from `base` on.
    unfoldable pub mask_pass : List (Entity S) → ℕ → ℕ → MaskState → Option (Masked S)
    mask_pass [] cursor base state = do
      rest ← slice? cursor (length original) original
      some (record { text = rest; records = []; infos = []; state = state })
    mask_pass (e ∷ es) cursor base state =
        let skipped = mask_pass es cursor base state in
        if ltb (Entity.span e).start cursor then skipped else (do
          p ← replace_one e cursor state
          rest ← mask_pass es (Entity.span e).end (masked_end base p) p.state
          some (assemble base p rest))
